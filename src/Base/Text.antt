-- ===== src/Base/Text.antt =====
-- Go strings as native texts, with what the program takes of fmt, strconv and strings.
pub mod Digits
pub mod Decimal
pub mod Fields
use Prim.Native.Nat.{ℕ, zero, suc, ◌/◌, ◌%◌}
use Prim.Native.Char.{Char, code}
use Prim.Native.String.{String, len, ◌++◌, slice}
use mathlib.Core.Bool.{Bool, ◌&&◌, ◌||◌}
use mathlib.Core.List.{List, [], ◌∷◌}
use text.Mathlib.Text.{starts_with}
use krnl_sentry.Base.Tests.{ltb, if◌then◌else◌}
use krnl_sentry.Base.Lists.{get_or}
use krnl_sentry.Base.Int.{ℤ, pos, negsuc}
use krnl_sentry.Base.Equality.{nat_beq}

-- The text of a row of pieces, as fmt.Sprintf puts them together.
unfoldable pub concat : List String → String
concat [] = ""
concat (s ∷ ss) = s ++ concat ss

-- strings.Join(parts, sep).
unfoldable pub join : String → List String → String
join sep [] = ""
join sep (s ∷ []) = s
join sep (s ∷ t ∷ ss) = s ++ (sep ++ join sep (t ∷ ss))

digit_names : List String
digit_names =
    "0" ∷ "1" ∷ "2" ∷ "3" ∷ "4" ∷ "5" ∷ "6" ∷ "7" ∷ "8" ∷ "9" ∷ "a" ∷ "b" ∷ "c" ∷ "d" ∷ "e" ∷ "f"
    ∷ []

-- The digit of a number below 16.
unfoldable pub digit_text : ℕ → String
unfolding digit_names
digit_text d = get_or digit_names d "?"

-- The digits of a number in a base up to 16, in front of a text; no digit for 0. A base of at
-- least 2 divides a 64-bit number down to 0 in at most 64 rounds.
digits : ℕ → ℕ → ℕ → String → String
digits zero base v acc = acc
digits (suc fuel) base v acc =
    let rest = digits fuel base (v / base) (digit_text (v % base) ++ acc) in
    if nat_beq v 0 then acc else rest

unfoldable pub format_base : ℕ → ℕ → String
unfolding digits digit_text
format_base base v = if nat_beq v 0 then "0" else digits 64 base v ""

-- strconv.FormatUint(v, 10) and the verb %d.
unfoldable pub format_uint : ℕ → String
unfolding format_base
format_uint v = format_base 10 v

unfoldable pub format_int : ℤ → String
unfolding format_uint
format_int (pos n) = format_uint n
format_int (negsuc n) = "-" ++ format_uint (suc n)

unfoldable pub has_prefix : String → String → Bool
has_prefix s prefix = starts_with s prefix

-- strings.Contains(s, t): t begins at some place of s.
unfoldable pub contains : String → String → Bool
contains String.[] t = starts_with "" t
contains (String.◌∷◌ c s) t = starts_with (String.◌∷◌ c s) t || contains s t

-- The part of a text in front of the first byte `b`, all of it where there is none: the first
-- result of strings.Cut.
unfoldable pub before_byte : ℕ → String → String
before_byte b String.[] = ""
before_byte b (String.◌∷◌ c s) =
    let rest = String.◌∷◌ c (before_byte b s) in if nat_beq (code c) b then "" else rest

-- The character of a text in quotes, for the verb %q: Go escapes the quote, the backslash and the
-- control characters, and leaves printable characters.
quote_char : Char → String
quote_char c =
    let n = code c in
    if nat_beq n 34
    then "\\\""
    else if nat_beq n 92
    then "\\\\"
    else if nat_beq n 7
    then "\\a"
    else if nat_beq n 8
    then "\\b"
    else if nat_beq n 12
    then "\\f"
    else if nat_beq n 10
    then "\\n"
    else if nat_beq n 13
    then "\\r"
    else if nat_beq n 9
    then "\\t"
    else if nat_beq n 11
    then "\\v"
    else if ltb n 32 || nat_beq n 127
    then concat ("\\x" ∷ digit_text (n / 16) ∷ digit_text (n % 16) ∷ [])
    else String.◌∷◌ c ""

quote_body : String → String
quote_body String.[] = ""
quote_body (String.◌∷◌ c s) = quote_char c ++ quote_body s

unfoldable pub quote : String → String
unfolding quote_char quote_body concat digit_text
quote s = concat ("\"" ∷ quote_body s ∷ "\"" ∷ [])

-- strings.TrimPrefix.
unfoldable pub trim_prefix : String → String → String
trim_prefix s prefix = if starts_with s prefix then slice s (len prefix) (len s) else s

-- The white space of strings.TrimSpace, as far as Latin-1.
unfoldable pub is_space : Char → Bool
is_space c =
    let n = code c in nat_beq n 32 || (ltb 8 n && ltb n 14) || nat_beq n 0x85 || nat_beq n 0xa0

trim_left : String → String
trim_left String.[] = ""
trim_left (String.◌∷◌ c s) = let rest = trim_left s in if is_space c then rest else String.◌∷◌ c s

trim_right : String → String
trim_right String.[] = ""
trim_right (String.◌∷◌ c s) =
    let rest = trim_right s in if is_space c && nat_beq (len rest) 0 then "" else String.◌∷◌ c rest

-- strings.TrimSpace.
unfoldable pub trim_space : String → String
unfolding is_space trim_left trim_right
trim_space s = trim_left (trim_right s)
