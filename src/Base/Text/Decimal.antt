-- ===== src/Base/Text/Decimal.antt =====
-- strconv.ParseUint, and that it reads back what a number is printed as.
use Prim.Native.Nat.{ℕ, zero, suc, ◌+◌, ◌-◌, ◌*◌, ◌/◌, ◌%◌, ◌^◌, ◌<◌}
use Prim.Native.Char.{Char, code}
use Prim.Native.String.{String, ◌++◌}
use Prim.Native.String.append
use mathlib.Core.Path.{◌≡◌, refl, sym, ◌∙◌, ap}
use mathlib.Core.Bool.{Bool, true, false, ◌&&◌}
use mathlib.Core.Option.{Option, none, some}
use native.Mathlib.Omega.{arith}
use krnl_sentry.Base.Tests.{ltb, if◌then◌else◌}
use krnl_sentry.Base.Equality.{nat_beq}
use krnl_sentry.Base.Text.{digit_names, digit_text, digits, format_base, format_uint}

unfoldable pub is_digit : Char → Bool
is_digit c = let n = code c in ltb 47 n && ltb n 58

-- The number that the digits of a text go on to, behind some digits that were read.
unfoldable pub parse_digits : ℕ → String → Option ℕ
parse_digits acc String.[] = some acc
parse_digits acc (String.◌∷◌ c s) =
    let rest = parse_digits (acc * 10 + (code c - 48)) s in if is_digit c then rest else none

abbrev pub below_limit : Option ℕ → Option ℕ
below_limit none = none
below_limit (some n) = if ltb n (2 ^ 32) then some n else none

-- strconv.ParseUint(s, 10, 32), where it succeeds.
unfoldable pub parse_uint32 : String → Option ℕ
parse_uint32 String.[] = none
parse_uint32 (String.◌∷◌ c s) = below_limit (parse_digits 0 (String.◌∷◌ c s))

-- A text of digits, with one at least.
abbrev pub all_digits : String → Bool
all_digits String.[] = true
all_digits (String.◌∷◌ c s) = is_digit c && all_digits s

-- The character of a digit.
digit_char : (d : ℕ) → d < 10 → (c : Char) × (digit_text d ≡ String.◌∷◌ c "") × (code c ≡ d + 48)
unfolding digit_text digit_names
digit_char zero h = (_, refl, refl)
digit_char (suc zero) h = (_, refl, refl)
digit_char (suc (suc zero)) h = (_, refl, refl)
digit_char (suc (suc (suc zero))) h = (_, refl, refl)
digit_char (suc (suc (suc (suc zero)))) h = (_, refl, refl)
digit_char (suc (suc (suc (suc (suc zero))))) h = (_, refl, refl)
digit_char (suc (suc (suc (suc (suc (suc zero)))))) h = (_, refl, refl)
digit_char (suc (suc (suc (suc (suc (suc (suc zero))))))) h = (_, refl, refl)
digit_char (suc (suc (suc (suc (suc (suc (suc (suc zero)))))))) h = (_, refl, refl)
digit_char (suc (suc (suc (suc (suc (suc (suc (suc (suc zero))))))))) h = (_, refl, refl)
digit_char (suc (suc (suc (suc (suc (suc (suc (suc (suc (suc n)))))))))) h = absurd (omega arith)

code-is_digit : (c : Char) (d : ℕ) → d < 10 → code c ≡ d + 48 → is_digit c ≡ true
unfolding is_digit
code-is_digit c d h value = ground arith

parse_digits-digit_text :
    (d acc : ℕ) (s : String)
    → d < 10
    → parse_digits acc (digit_text d ++ s) ≡ parse_digits (acc * 10 + d) s
unfolding parse_digits
parse_digits-digit_text d acc s h =
    let (c, spelled, value) = digit_char d h in
    let same : acc * 10 + (code c - 48) ≡ acc * 10 + d = omega (arith, value) in
    rw (spelled, append.cons c "" s, append.nil s, code-is_digit c d h value)
      (ap (λ n. parse_digits n s) same)

all_digits-digit_text :
    (d : ℕ) (s : String) → d < 10 → all_digits s ≡ true → all_digits (digit_text d ++ s) ≡ true
all_digits-digit_text d s h hs =
    let (c, spelled, value) = digit_char d h in
    rw (spelled, append.cons c "" s, append.nil s, code-is_digit c d h value) hs

-- What a number of some digits is below.
abbrev power : ℕ → ℕ
power zero = 1
power (suc n) = 10 * power n

parse_digits-digits :
    (fuel v : ℕ) (acc : String)
    → v < power fuel
    → parse_digits 0 (digits fuel 10 v acc) ≡ parse_digits v acc
unfolding digits
parse_digits-digits zero v acc h =
    let nothing : 0 ≡ v = omega (arith, h) in ap (λ n. parse_digits n acc) nothing
parse_digits-digits (suc fuel) v acc h =
    let ih = parse_digits-digits fuel (v / 10) (digit_text (v % 10) ++ acc) (omega (arith, h)) in
    let last = parse_digits-digit_text (v % 10) (v / 10) acc (omega arith) in
    let whole : v / 10 * 10 + v % 10 ≡ v = omega arith in
    let read = ih ∙ last ∙ ap (λ n. parse_digits n acc) whole in ground (arith, read)

digits-all_digits :
    (fuel v : ℕ) (acc : String) → all_digits acc ≡ true → all_digits (digits fuel 10 v acc) ≡ true
unfolding digits
digits-all_digits zero v acc h = h
digits-all_digits (suc fuel) v acc h =
    let head = all_digits-digit_text (v % 10) acc (omega arith) h in
    ground (arith, digits-all_digits fuel (v / 10) (digit_text (v % 10) ++ acc) head)

parse_from_end : (v : ℕ) → parse_digits v "" ≡ some v
unfolding parse_digits
parse_from_end v = refl

parse_uint32-parse_digits :
    (s : String) (n : ℕ) → parse_digits 0 s ≡ some n → 0 < n → n < 2 ^ 32 → parse_uint32 s ≡ some n
unfolding parse_uint32
parse_uint32-parse_digits String.[] n read h small =
    absurd (ground (arith, parse_from_end 0, read, h))
parse_uint32-parse_digits (String.◌∷◌ c s) n read h small = rw read (ground (arith, small))

by_if {ℓ} :
    (P : String → Type ℓ) (b : Bool) (s t : String)
    → (b ≡ true → P s)
    → (b ≡ false → P t)
    → P (if b then s else t)
by_if P true s t first second = first refl
by_if P false s t first second = second refl

-- What holds of the text of 0, and of the digits of another number, holds of the text of a number.
by_digits {ℓ} :
    (P : String → Type ℓ) (v : ℕ)
    → (v ≡ 0 → P "0")
    → (0 < v → P (digits 64 10 v ""))
    → P (format_uint v)
unfolding format_uint format_base
by_digits P v zero_case other =
    by_if P (nat_beq v 0) "0" (digits 64 10 v "") (λ e. zero_case (ground (arith, e)))
      (λ e. other (ground (arith, e)))

zero_parsed : parse_uint32 "0" ≡ some 0
unfolding parse_uint32 parse_digits is_digit
zero_parsed = refl

zero_digits : all_digits "0" ≡ true
unfolding is_digit
zero_digits = refl

pub parse_uint32-format_uint : (v : ℕ) → v < 2 ^ 32 → parse_uint32 (format_uint v) ≡ some v
parse_uint32-format_uint v h =
    by_digits (λ s. parse_uint32 s ≡ some v) v (λ is_zero. zero_parsed ∙ ap some (sym is_zero))
      (λ positive.
        parse_uint32-parse_digits _ v
          (parse_digits-digits 64 v "" (omega (arith, h)) ∙ parse_from_end v) positive h)

pub all_digits-format_uint : (v : ℕ) → all_digits (format_uint v) ≡ true
all_digits-format_uint v =
    by_digits (λ s. all_digits s ≡ true) v (λ is_zero. zero_digits)
      (λ positive. digits-all_digits 64 v "" refl)
