-- ===== src/Output/Dashboard/Widgets.antt =====
-- output/dashboard.go and output/term.go: the pieces that the panels are made of. A width is at
-- least 76, so that the subtractions of the code do not go below 0 unless a test is written out.
pub mod OneLine
use Prim.Native.Char.{Char, code}
use Prim.Native.String.{len, char_at}
use krnl_sentry.Base.{
  ℕ, zero, suc, ℤ, pos, negsuc, ◌+◌, ◌-◌, ◌*◌, ◌/◌, ◌%◌, ltb, leb, String, Bool, true, false, not,
  ◌&&◌, ◌||◌, List, [], ◌∷◌, ◌++◌, Option, none, some, if◌then◌else◌, ◌==◌, nat_eq, string_eq,
  concat, format_uint, get_or,
}
use krnl_sentry.Output.Terminal.{
  ansi_reset, ansi_dim, ansi_bold, visible_len, repeat_text, pad_left,
}
use krnl_sentry.Output.Dashboard.{Progress, not_applicable, part}

-- What the terminal of a writer answers: the size by ioctl, with 0 where there is none, and what
-- strconv.Atoi reads from COLUMNS and LINES.
pub record Terminal : Type 0 where
  pub cols : ℕ
  pub rows : ℕ
  pub env_columns : Option ℤ
  pub env_lines : Option ℤ

-- A size from the ioctl, else from the environment, else the fallback.
unfoldable pub size_or : ℕ → Option ℤ → ℕ → ℕ
size_or zero none fallback = fallback
size_or zero (some (pos n)) fallback = if ltb 0 n then n else fallback
size_or zero (some (negsuc n)) fallback = fallback
size_or (suc n) env fallback = suc n

abbrev fallback_cols : ℕ
fallback_cols = 100

abbrev fallback_rows : ℕ
fallback_rows = 30

unfoldable pub terminal_width : Terminal → ℕ
terminal_width t = size_or t.cols t.env_columns fallback_cols

unfoldable pub terminal_height : Terminal → ℕ
terminal_height t = size_or t.rows t.env_lines fallback_rows

abbrev pub min_width : ℕ
min_width = 76

abbrev pub max_width : ℕ
max_width = 160

-- width.
unfoldable pub frame_width : Terminal → ℕ → ℕ
frame_width t width =
    let w = if width == 0 then terminal_width t else width in
    let low = if ltb w min_width then min_width else w in
    if ltb max_width low then max_width else low

-- maxInt.
unfoldable pub max_int : ℕ → ℕ → ℕ
max_int a b = if ltb b a then a else b

-- color: whether colours are on, the style, and the text.
unfoldable pub paint : Bool → String → String → String
paint on style s = if not on || style == "" then s else concat (style ∷ s ∷ ansi_reset ∷ [])

-- styleIf.
unfoldable pub style_if : Bool → String → String
style_if cond style = if cond then style else ""

-- rule.
unfoldable pub divider : Bool → String → String → ℕ → String → String → String → String
divider on left_cap right_cap w left right style =
    let used = if left == "" then 2 else 2 + (visible_len left + 2) in
    let tail = if right == "" then "" else concat (" " ∷ right ∷ " " ∷ []) in
    let fill = max_int 1 (w - used - visible_len tail - 1) in
    concat (
      paint on ansi_dim (concat (left_cap ∷ "─" ∷ []))
      ∷ (if left == "" then "" else concat (" " ∷ paint on style left ∷ " " ∷ []))
      ∷ paint on ansi_dim (repeat_text "─" fill)
      ∷ (if tail == "" then "" else paint on ansi_dim tail)
      ∷ paint on ansi_dim right_cap
      ∷ [])

-- heading.
unfoldable pub heading : Bool → String → ℕ → String
heading on text w = concat (
    "  "
    ∷ paint on ansi_bold text
    ∷ " "
    ∷ paint on ansi_dim (repeat_text "─" (max_int 1 (w - visible_len text - 3)))
    ∷ [])

-- heading2.
unfoldable pub heading2 : Bool → String → String → ℕ → String
heading2 on left right w =
    let half = w / 2 in
    concat (
      "  "
      ∷ paint on ansi_bold left
      ∷ " "
      ∷ paint on ansi_dim (repeat_text "─" (max_int 1 (half - visible_len left - 3)))
      ∷ "  "
      ∷ paint on ansi_bold right
      ∷ " "
      ∷ paint on ansi_dim (repeat_text "─" (max_int 1 (w - half - visible_len right - 3)))
      ∷ [])

-- formatDuration, on nanoseconds. The code takes the seconds through a float64, which is exact for
-- an uptime of less than 97 days.
unfoldable pub format_duration : ℤ → String
format_duration (negsuc n) = "00:00"
format_duration (pos ns) =
    let total = ns / 1000000000 in
    let h = total / 3600 in
    let m = (total / 60) % 60 in
    let s = total % 60 in
    let two = λ (n : ℕ). pad_left "0" 2 (format_uint n) in
    if ltb 0 h
    then concat (format_uint h ∷ ":" ∷ two m ∷ ":" ∷ two s ∷ [])
    else concat (two m ∷ ":" ∷ two s ∷ [])

upper_letters : List String
upper_letters =
    "A" ∷ "B" ∷ "C" ∷ "D" ∷ "E" ∷ "F" ∷ "G" ∷ "H" ∷ "I" ∷ "J" ∷ "K" ∷ "L" ∷ "M" ∷ "N" ∷ "O" ∷ "P"
    ∷ "Q" ∷ "R" ∷ "S" ∷ "T" ∷ "U" ∷ "V" ∷ "W" ∷ "X" ∷ "Y" ∷ "Z" ∷ []

upper_rune : Char → String
unfolding upper_letters
upper_rune c =
    if leb b'a' (code c) && leb (code c) b'z'
    then get_or upper_letters (code c - b'a') ""
    else String.◌∷◌ c ""

-- strings.ToUpper, on the letters of ASCII.
unfoldable pub to_upper : String → String
unfolding upper_rune
to_upper String.[] = ""
to_upper (String.◌∷◌ c s) = concat (upper_rune c ∷ to_upper s ∷ [])

-- `scaled n d w` is what the code computes as int(float64(n) / float64(d) * float64(w)).
module _ (scaled : ℕ → ℕ → ℕ → ℕ) where
  -- bar.
  unfoldable pub bar : ℕ → ℕ → ℕ → String
  bar n most w =
      let filled = scaled n most w in
      let low = if ltb filled 1 then 1 else filled in
      if most == 0 || n == 0 then "" else repeat_text "█" (if ltb w low then w else low)

  -- meter, for a fraction: one above 1 counts as 1.
  unfoldable pub meter : ℕ → ℕ → ℕ → String
  meter read total w =
      let filled = if leb total read then w else scaled read total w in
      concat (repeat_text "█" filled ∷ repeat_text "░" (w - filled) ∷ [])

-- The columns of a row of the feed.
pub record Columns : Type 0 where
  pub rule : ℕ
  pub proc : ℕ
  pub mitre : ℕ
  pub desc : ℕ

abbrev pub min_desc_cols : ℕ
min_desc_cols = 12

abbrev pub min_name_cols : ℕ
min_name_cols = 10

abbrev pub overhead : ℕ
overhead = 3 + 12 + 1 + 10 + 1 + 1 + 1

-- avail: what the other columns leave. It goes below 0 only while the column for the technique is
-- there, and then it is compared with 12 and no more.
unfoldable pub avail : ℕ → ℕ → ℕ → ℕ → ℕ
avail w rule proc mitre =
    let n = w - overhead - rule - proc in if ltb 0 mitre then n - (mitre + 1) else n

-- The two loops. Each round takes a column off, so that its width is fuel enough.
unfoldable pub shrink_rule : ℕ → ℕ → ℕ → ℕ → ℕ → ℕ
unfolding avail
shrink_rule zero w rule proc mitre = rule
shrink_rule (suc fuel) w rule proc mitre =
    let more = shrink_rule fuel w (rule - 1) proc mitre in
    if ltb (avail w rule proc mitre) min_desc_cols && ltb min_name_cols rule then more else rule

unfoldable pub shrink_proc : ℕ → ℕ → ℕ → ℕ → ℕ → ℕ
unfolding avail
shrink_proc zero w rule proc mitre = proc
shrink_proc (suc fuel) w rule proc mitre =
    let more = shrink_proc fuel w rule (proc - 1) mitre in
    if ltb (avail w rule proc mitre) min_desc_cols && ltb min_name_cols proc then more else proc

-- alertColumns.
unfoldable pub alert_columns : ℕ → Columns
unfolding avail shrink_rule shrink_proc
alert_columns w =
    let mitre = if ltb (avail w 21 18 10) min_desc_cols then 0 else 10 in
    let rule = shrink_rule 21 w 21 18 mitre in
    let proc = shrink_proc 18 w rule 18 mitre in
    record { rule = rule; proc = proc; mitre = mitre; desc = avail w rule proc mitre }
