-- ===== src/Output/Dashboard/Widgets/OneLine.antt =====
-- The pieces of the dashboard's panels stay on one line.
use Prim.Native.Char.{code}
use krnl_sentry.Base.{
  ℕ, ℤ, pos, negsuc, zero, suc, ◌+◌, ◌-◌, ◌/◌, ◌%◌, ◌≤◌, ltb, leb, String, Bool, true, not, ◌&&◌,
  ◌||◌, List, [], ◌∷◌, ◌==◌, string_eq, nat_eq, ◌≡◌, arith, concat, refl, All, format_uint, get_or,
  printable,
}
use krnl_sentry.Output.Terminal.{occurrences, repeat_text, ansi_dim, ansi_bold}
use krnl_sentry.Output.Terminal.Columns.{
  Free, Frees, done, ◌▹◌, occurrences-append, empty-Free, if-Free, concat-Free, repeat_text-Free,
  printable-Free, number-Free, pad_left-Free,
}
use krnl_sentry.Output.Dashboard.Widgets.{
  paint, divider, heading, heading2, format_duration, upper_letters, upper_rune, to_upper, bar,
  meter,
}

-- A text without a line end.
abbrev pub OneLine : String → Type 0
OneLine = Free 10

-- A text of printable runes.
pub literal-OneLine : (s : String) → printable s ≡ true → OneLine s
literal-OneLine s h = printable-Free 10 (omega arith) s h

pub uint-OneLine : (n : ℕ) → OneLine (format_uint n)
uint-OneLine n = number-Free 10 (omega arith) n

pub texts-OneLine : (ss : List String) → Frees 10 ss → OneLine (concat ss)
texts-OneLine ss h = concat-Free 10 ss h

-- The line ends of a row of pieces.
abbrev pub total_lines : List String → ℕ
total_lines [] = 0
total_lines (s ∷ ss) = occurrences 10 s + total_lines ss

pub concat-total_lines : (ss : List String) → occurrences 10 (concat ss) ≡ total_lines ss
unfolding concat
concat-total_lines [] = empty-Free 10
concat-total_lines (s ∷ ss) =
    omega (arith, occurrences-append 10 s (concat ss), concat-total_lines ss)

pub concat_bound : (ss : List String) (n : ℕ) → total_lines ss ≤ n → occurrences 10 (concat ss) ≤ n
concat_bound ss n h = omega (arith, concat-total_lines ss)

pub paint-OneLine :
    (on : Bool) (style s : String) → OneLine style → OneLine s → OneLine (paint on style s)
unfolding paint occurrences
paint-OneLine on style s hs h =
    if-Free 10 (not on || style == "") s _ h (texts-OneLine _ (hs ▹ h ▹ refl ▹ done))

line-OneLine : (n : ℕ) → OneLine (repeat_text "─" n)
line-OneLine n = repeat_text-Free 10 "─" n (literal-OneLine "─" refl)

pub dim-OneLine : (on : Bool) (s : String) → OneLine s → OneLine (paint on ansi_dim s)
unfolding occurrences
dim-OneLine on s h = paint-OneLine on ansi_dim s refl h

pub divider-OneLine :
    (on : Bool) (left_cap right_cap : String) (w : ℕ) (left right style : String)
    → OneLine left_cap
    → OneLine right_cap
    → OneLine left
    → OneLine right
    → OneLine style
    → OneLine (divider on left_cap right_cap w left right style)
unfolding divider
divider-OneLine on left_cap right_cap w left right style hl hr left_one right_one hs =
    let space : OneLine " " = literal-OneLine " " refl in
    let tail =
      if-Free 10 (right == "") "" _ (empty-Free 10)
        (texts-OneLine (" " ∷ right ∷ " " ∷ []) (space ▹ right_one ▹ space ▹ done)) in
    texts-OneLine _ (
      (dim-OneLine on _ (texts-OneLine _ (hl ▹ (literal-OneLine "─" refl) ▹ done)))
      ▹ (if-Free 10 (left == "") "" _ (empty-Free 10)
          (texts-OneLine _ (space ▹ (paint-OneLine on style left hs left_one) ▹ space ▹ done)))
      ▹ (dim-OneLine on _ (line-OneLine _))
      ▹ (if-Free 10 _ "" _ (empty-Free 10) (dim-OneLine on _ tail))
      ▹ (dim-OneLine on right_cap hr)
      ▹ done)

pub heading-OneLine :
    (on : Bool) (text : String) (w : ℕ) → OneLine text → OneLine (heading on text w)
unfolding heading occurrences
heading-OneLine on text w h = texts-OneLine _ (
    refl
    ▹ (paint-OneLine on ansi_bold text refl h)
    ▹ refl
    ▹ (dim-OneLine on _ (line-OneLine _))
    ▹ done)

pub heading2-OneLine :
    (on : Bool) (left right : String) (w : ℕ)
    → OneLine left
    → OneLine right
    → OneLine (heading2 on left right w)
unfolding heading2 occurrences
heading2-OneLine on left right w hl hr = texts-OneLine _ (
    refl
    ▹ (paint-OneLine on ansi_bold left refl hl)
    ▹ refl
    ▹ (dim-OneLine on _ (line-OneLine _))
    ▹ refl
    ▹ (paint-OneLine on ansi_bold right refl hr)
    ▹ refl
    ▹ (dim-OneLine on _ (line-OneLine _))
    ▹ done)

pub format_duration-OneLine : (d : ℤ) → OneLine (format_duration d)
unfolding format_duration
format_duration-OneLine (negsuc n) = literal-OneLine "00:00" refl
format_duration-OneLine (pos ns) =
    let total = ns / 1000000000 in
    let two = λ (n : ℕ).
      pad_left-Free 10 (omega arith) "0" 2 (format_uint n) (literal-OneLine "0" refl)
        (uint-OneLine n) in
    let colon = literal-OneLine ":" refl in
    let m = two ((total / 60) % 60) in
    let s = two (total % 60) in
    if-Free 10 (ltb 0 (total / 3600)) _ _
      (texts-OneLine _ ((uint-OneLine (total / 3600)) ▹ colon ▹ m ▹ colon ▹ s ▹ done))
      (texts-OneLine _ (m ▹ colon ▹ s ▹ done))

get_or-OneLine : (ss : List String) (i : ℕ) → All OneLine ss → OneLine (get_or ss i "")
get_or-OneLine [] i h = empty-Free 10
get_or-OneLine (s ∷ ss) zero h = h.0
get_or-OneLine (s ∷ ss) (suc i) h = get_or-OneLine ss i h.1

pub to_upper-OneLine : (s : String) → OneLine s → OneLine (to_upper s)
unfolding to_upper occurrences upper_rune
to_upper-OneLine String.[] h = refl
to_upper-OneLine (String.◌∷◌ c s) h =
    let here : occurrences 10 (String.◌∷◌ c "") ≡ 0 = omega (arith, h) in
    texts-OneLine _ (
      (if-Free 10 (leb b'a' (code c) && leb (code c) b'z') _ _
        (get_or-OneLine upper_letters (code c - b'a') letters) here)
      ▹ (to_upper-OneLine s (omega (arith, h)))
      ▹ done)
  where
    letters : All OneLine upper_letters
    letters = omega arith

module _ (scaled : ℕ → ℕ → ℕ → ℕ) where
  pub bar-OneLine : (n most w : ℕ) → OneLine (bar scaled n most w)
  unfolding bar
  bar-OneLine n most w =
      if-Free 10 (most == 0 || n == 0) _ _ (empty-Free 10)
        (repeat_text-Free 10 "█" _ (literal-OneLine "█" refl))

  pub meter-OneLine : (read total w : ℕ) → OneLine (meter scaled read total w)
  unfolding meter
  meter-OneLine read total w = texts-OneLine _ (
      (repeat_text-Free 10 "█" _ (literal-OneLine "█" refl))
      ▹ (repeat_text-Free 10 "░" _ (literal-OneLine "░" refl))
      ▹ done)
