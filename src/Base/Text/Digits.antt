-- ===== src/Base/Text/Digits.antt =====
-- What the decimal texts of numbers are made of.
use Prim.Native.Nat.{ℕ, zero, suc, ◌/◌, ◌%◌}
use Prim.Native.Char.{code}
use Prim.Native.String.{String, ◌++◌}
use Prim.Native.String.append
use mathlib.Core.Path.{◌≡◌, refl}
use mathlib.Core.Bool.{Bool, true, false}
use mathlib.Core.List.{List, [], ◌∷◌}
use native.Mathlib.Omega.{arith}
use krnl_sentry.Base.Tests.{leb, if◌then◌else◌}
use krnl_sentry.Base.Lists.{get_or}
use krnl_sentry.Base.Equality.{nat_beq}
use krnl_sentry.Base.Int.{ℤ, pos, negsuc}
use krnl_sentry.Base.Text.{digit_names, digit_text, digits, format_base, format_uint, format_int}

-- No rune is a control character.
abbrev pub printable : String → Bool
printable String.[] = true
printable (String.◌∷◌ c s) = if leb 32 (code c) then printable s else false

pub printable-append :
    (s t : String) → printable s ≡ true → printable t ≡ true → printable (s ++ t) ≡ true
printable-append String.[] t hs ht = ground (arith, append.nil t)
printable-append (String.◌∷◌ c s) t hs ht = ground (arith, append.cons c s t, printable-append s t)

abbrev AllPrintable : List String → Type 0
AllPrintable [] = Unit
AllPrintable (s ∷ ss) = (printable s ≡ true) × AllPrintable ss

get_or-printable :
    (ss : List String) (i : ℕ) (d : String)
    → AllPrintable ss
    → printable d ≡ true
    → printable (get_or ss i d) ≡ true
get_or-printable [] i d h hd = hd
get_or-printable (s ∷ ss) zero d h hd = h.0
get_or-printable (s ∷ ss) (suc i) d h hd = get_or-printable ss i d h.1 hd

digit_text-printable : (d : ℕ) → printable (digit_text d) ≡ true
unfolding digit_text digit_names
digit_text-printable d = get_or-printable digit_names d "?" names refl
  where
    names : AllPrintable digit_names
    names = (
      refl,
      (
        refl,
        (
          refl,
          (
            refl,
            (
              refl,
              (
                refl,
                (refl, (refl, (refl, (refl, (refl, (refl, (refl, (refl, (refl, (refl, tt)))))))))),
              ),
            ),
          ),
        ),
      ),
    )

digits-printable :
    (fuel base v : ℕ) (acc : String)
    → printable acc ≡ true
    → printable (digits fuel base v acc) ≡ true
unfolding digits
digits-printable zero base v acc h = h
digits-printable (suc fuel) base v acc h =
    let head = printable-append (digit_text (v % base)) acc (digit_text-printable (v % base)) h in
    ground (arith, digits-printable fuel base (v / base) (digit_text (v % base) ++ acc) head)

if-printable :
    (b : Bool) (s t : String)
    → printable s ≡ true
    → printable t ≡ true
    → printable (if b then s else t) ≡ true
if-printable true s t hs ht = hs
if-printable false s t hs ht = ht

pub format_uint-printable : (v : ℕ) → printable (format_uint v) ≡ true
unfolding format_uint format_base
format_uint-printable v =
    if-printable (nat_beq v 0) "0" (digits 64 10 v "") refl (digits-printable 64 10 v "" refl)

pub format_int-printable : (v : ℤ) → printable (format_int v) ≡ true
unfolding format_int
format_int-printable (pos n) = format_uint-printable n
format_int-printable (negsuc n) =
    printable-append "-" (format_uint (suc n)) refl (format_uint-printable (suc n))
