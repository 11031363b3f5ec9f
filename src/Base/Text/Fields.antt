-- ===== src/Base/Text/Fields.antt =====
-- strings.Fields, and the text behind the last byte of a kind.
use Prim.Native.Nat.{ℕ}
use Prim.Native.Char.{Char, code}
use Prim.Native.String.{String, ◌++◌}
use Prim.Native.String.append
use mathlib.Core.Path.{◌≡◌, refl, ◌∙◌, ap}
use mathlib.Core.Bool.{true, false}
use mathlib.Core.Option.{Option, none, some}
use mathlib.Core.List.{List, [], ◌∷◌}
use native.Mathlib.Omega.{arith}
use krnl_sentry.Base.Tests.{ltb, if◌then◌else◌}
use krnl_sentry.Base.Equality.{nat_beq}
use krnl_sentry.Base.Text.{is_space}
use krnl_sentry.Base.Text.Decimal.{is_digit, all_digits}

-- A word in front of others, unless it is empty.
unfoldable pub with_word : String → List String → List String
with_word String.[] words = words
with_word (String.◌∷◌ c s) words = String.◌∷◌ c s ∷ words

-- The word that a text begins with, empty where that is a space, and the words behind it.
unfoldable pub split_word : String → String × List String
unfolding is_space
split_word String.[] = ("", [])
split_word (String.◌∷◌ c s) =
    let rest = split_word s in
    if is_space c then ("", with_word rest.0 rest.1) else (String.◌∷◌ c rest.0, rest.1)

-- strings.Fields.
unfoldable pub fields : String → List String
fields s = let first = split_word s in with_word first.0 first.1

-- The text behind the last byte `b` below 0x80, where there is one.
unfoldable pub behind_last : ℕ → String → Option String
behind_last b String.[] = none
behind_last b (String.◌∷◌ c s) = elim (behind_last b s) [
  | some t ↦ some t
  | none ↦ if nat_beq (code c) b then some s else none
]

behind_last-none :
    (b : ℕ) (c : Char) (s : String)
    → behind_last b s ≡ none
    → behind_last b (String.◌∷◌ c s) ≡ (if nat_beq (code c) b then some s else none)
unfolding behind_last
behind_last-none b c s h = rw (h, behind_last) refl

behind_last-some :
    (b : ℕ) (c : Char) (s t : String)
    → behind_last b s ≡ some t
    → behind_last b (String.◌∷◌ c s) ≡ some t
unfolding behind_last
behind_last-some b c s t h = rw (h, behind_last) refl

pub behind_last-append :
    (b : ℕ) (s t u : String) → behind_last b t ≡ some u → behind_last b (s ++ t) ≡ some u
behind_last-append b String.[] t u h = rw (append.nil t) h
behind_last-append b (String.◌∷◌ d s) t u h =
    rw (append.cons d s t) (behind_last-some b d (s ++ t) u (behind_last-append b s t u h))

pub behind_last_here :
    (b : ℕ) (c : Char) (t : String)
    → nat_beq (code c) b ≡ true
    → behind_last b t ≡ none
    → behind_last b (String.◌∷◌ c t) ≡ some t
behind_last_here b c t same h = behind_last-none b c t h ∙ ap (λ o. if o then some t else none) same

pub behind_last_not_here :
    (b : ℕ) (c : Char) (t : String)
    → nat_beq (code c) b ≡ false
    → behind_last b t ≡ none
    → behind_last b (String.◌∷◌ c t) ≡ none
behind_last_not_here b c t other h =
    behind_last-none b c t h ∙ ap (λ o. if o then some t else none) other

pub behind_last-digits :
    (b : ℕ) (s t : String)
    → ltb b 48 ≡ true
    → all_digits s ≡ true
    → behind_last b t ≡ none
    → behind_last b (s ++ t) ≡ none
unfolding is_digit
behind_last-digits b String.[] t low hs h = rw (append.nil t) h
behind_last-digits b (String.◌∷◌ d s) t low hs h = rw (append.cons d s t) (
    behind_last_not_here b d (s ++ t) (ground (arith, hs, low))
      (behind_last-digits b s t low (ground (arith, hs)) h))

-- Where the first character is no space, and where it is one.
pub split_word_on :
    (c : Char) (s : String)
    → is_space c ≡ false
    → split_word (String.◌∷◌ c s) ≡ (String.◌∷◌ c (split_word s).0, (split_word s).1)
unfolding split_word
split_word_on c s h = rw h refl

pub split_word_space :
    (c : Char) (s : String) → is_space c ≡ true → split_word (String.◌∷◌ c s) ≡ ("", fields s)
unfolding split_word fields
split_word_space c s h = rw h refl

digit_filled : (c : Char) → is_digit c ≡ true → is_space c ≡ false
unfolding is_digit is_space
digit_filled c h = ground (arith, h)

-- A word of digits in front of a space.
pub split_word-digits :
    (s t : String)
    → all_digits s ≡ true
    → (split_word t).0 ≡ ""
    → split_word (s ++ t) ≡ (s, (split_word t).1)
split_word-digits String.[] t h ends = rw (append.nil t) (ap (λ w. (w, (split_word t).1)) ends)
split_word-digits (String.◌∷◌ d s) t h ends =
    let ih = split_word-digits s t (ground (arith, h)) ends in
    rw (append.cons d s t) (
      split_word_on d (s ++ t) (digit_filled d (ground (arith, h)))
      ∙ ap (λ r. (String.◌∷◌ d r.0, r.1)) ih)
