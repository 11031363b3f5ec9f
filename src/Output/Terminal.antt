-- ===== src/Output/Terminal.antt =====
-- output/console.go and output/dashboard.go: the control sequences, and texts cut, padded and
-- measured in printable columns. A text is a row of runes; its bytes are those of UTF-8.
pub mod Columns
pub mod Visible
pub mod Styles
use Prim.Native.Char.{Char, code}
use Prim.Native.String.{len, count, ◌++◌}
use krnl_sentry.Base.{
  ℕ, zero, suc, ◌+◌, ◌-◌, ◌/◌, ◌%◌, ltb, leb, String, Bool, ◌&&◌, List, [], ◌∷◌, ◌==◌, nat_eq,
  string_eq, if◌then◌else◌, concat, join, format_uint, get_or_else,
}
use krnl_sentry.Dict.{lookup}
use krnl_sentry.Detect.Alert.{
  Severity, severity_low, severity_medium, severity_high, severity_critical,
}

abbrev pub ansi_reset : String
ansi_reset = "\u{1b}[0m"

abbrev pub ansi_bold : String
ansi_bold = "\u{1b}[1m"

abbrev pub ansi_dim : String
ansi_dim = "\u{1b}[2m"

abbrev pub ansi_red : String
ansi_red = "\u{1b}[31m"

abbrev pub ansi_green : String
ansi_green = "\u{1b}[32m"

abbrev pub ansi_yellow : String
ansi_yellow = "\u{1b}[33m"

abbrev pub ansi_blue : String
ansi_blue = "\u{1b}[34m"

abbrev pub ansi_cyan : String
ansi_cyan = "\u{1b}[36m"

abbrev pub ansi_white : String
ansi_white = "\u{1b}[37m"

abbrev pub ansi_bg_red : String
ansi_bg_red = "\u{1b}[41m"

abbrev pub ansi_home : String
ansi_home = "\u{1b}[H"

abbrev pub ansi_clear_line : String
ansi_clear_line = "\u{1b}[K"

abbrev pub ansi_clear_below : String
ansi_clear_below = "\u{1b}[J"

abbrev pub ansi_hide_cursor : String
ansi_hide_cursor = "\u{1b}[?25l"

abbrev pub ansi_show_cursor : String
ansi_show_cursor = "\u{1b}[?25h"

unfoldable pub severity_styles : List (Severity × String)
severity_styles =
    (severity_low, ansi_cyan)
    ∷ (severity_medium, ansi_yellow)
    ∷ (severity_high, ansi_red ++ ansi_bold)
    ∷ (severity_critical, ansi_bg_red ++ (ansi_white ++ ansi_bold))
    ∷ []

-- severityStyle[s]: a missing key reads as the empty text.
unfoldable pub severity_style : Severity → String
severity_style s = get_or_else (lookup s severity_styles) ""

-- barStyle.
unfoldable pub bar_style : Severity → String
bar_style s =
    if s == severity_critical
    then ansi_red ++ ansi_bold
    else if s == severity_high
    then ansi_red
    else if s == severity_medium
    then ansi_yellow
    else ansi_cyan

-- strings.Repeat(s, n).
unfoldable pub repeat_text : String → ℕ → String
repeat_text s zero = ""
repeat_text s (suc n) = s ++ repeat_text s n

-- The states of visibleLen.
pub data Scan : Type 0 where
  plain : Scan
  after_esc : Scan
  in_csi : Scan
  after_intermediate : Scan

-- The state after one more rune.
unfoldable pub scan_next : Scan → ℕ → Scan
scan_next plain r = if r == 27 then after_esc else plain
scan_next after_esc r =
    if r == b'[' then in_csi else if leb b' ' r && leb r b'/' then after_intermediate else plain
scan_next after_intermediate r = plain
scan_next in_csi r = if leb b'@' r && leb r b'~' then plain else in_csi

-- How many columns the rune takes in a state.
unfoldable pub scan_width : Scan → ℕ → ℕ
scan_width plain r = if r == 27 then 0 else 1
scan_width after_esc r = 0
scan_width after_intermediate r = 0
scan_width in_csi r = 0

unfoldable pub visible_from : Scan → String → ℕ
visible_from state String.[] = 0
visible_from state (String.◌∷◌ r s) =
    scan_width state (code r) + visible_from (scan_next state (code r)) s

-- visibleLen.
unfoldable pub visible_len : String → ℕ
visible_len s = visible_from plain s

-- padVisible.
unfoldable pub pad_visible : String → ℕ → String
pad_visible s w = let n = visible_len s in if ltb n w then s ++ repeat_text " " (w - n) else s

-- The first n runes.
unfoldable pub take_runes : ℕ → String → String
take_runes zero s = ""
take_runes (suc n) String.[] = ""
take_runes (suc n) (String.◌∷◌ r s) = String.◌∷◌ r (take_runes n s)

-- truncate.
unfoldable pub truncate : String → ℕ → String
truncate s w =
    if w == 0
    then ""
    else if leb (count s) w
    then s
    else if w == 1
    then "…"
    else take_runes (w - 1) s ++ "…"

-- How often a rune stands in a text: strings.Count, for a text of one rune.
unfoldable pub occurrences : ℕ → String → ℕ
occurrences r String.[] = 0
occurrences r (String.◌∷◌ c s) = (if code c == r then 1 else 0) + occurrences r s

-- The verbs %-*s and %*d of fmt, which count runes.
unfoldable pub pad_right : ℕ → String → String
pad_right w s = s ++ repeat_text " " (w - count s)

unfoldable pub pad_left : String → ℕ → String → String
pad_left fill w s = repeat_text fill (w - count s) ++ s

-- The rows of wrapChips after the first chip: `used` columns are taken.
unfoldable pub wrap_rest : ℕ → String → String → ℕ → List (String × ℕ) → String
wrap_rest w indent sep used [] = "\n"
wrap_rest w indent sep used ((chip, width) ∷ rest) =
    let broken =
      concat ("\n" ∷ indent ∷ chip ∷ wrap_rest w indent sep (len indent + width) rest ∷ []) in
    let joined = concat (sep ∷ chip ∷ wrap_rest w indent sep (used + len sep + width) rest ∷ []) in
    if ltb w (used + len sep + width) then broken else joined

-- wrapChips: each chip with its width.
unfoldable pub wrap_chips : List (String × ℕ) → ℕ → String → String → String
wrap_chips [] w indent sep = "\n"
wrap_chips ((chip, width) ∷ rest) w indent sep =
    concat (indent ∷ chip ∷ wrap_rest w indent sep (len indent + width) rest ∷ [])

unfoldable pub drop_runes : ℕ → String → String
drop_runes zero s = s
drop_runes (suc n) String.[] = ""
drop_runes (suc n) (String.◌∷◌ r s) = drop_runes n s

-- The loop of formatCount: the last three digits go in front of the groups found so far. Each
-- round takes three digits off, so that as many rounds as there are digits are enough.
unfoldable pub group_digits : ℕ → String → List String → List String
group_digits zero s parts = s ∷ parts
group_digits (suc fuel) s parts =
    let cut = count s - 3 in
    let more = group_digits fuel (take_runes cut s) (drop_runes cut s ∷ parts) in
    if ltb 3 (count s) then more else s ∷ parts

-- formatCount. A digit is one byte, so that bytes are runes here.
unfoldable pub format_count : ℕ → String
format_count n =
    let s = format_uint n in if leb (count s) 4 then s else join " " (group_digits (count s) s [])
