-- ===== src/Output/Dashboard/Row.antt =====
-- One row of the alert feed of output/dashboard.go fits the width of the frame.
use Prim.Native.String.{count, ◌++◌}
use krnl_sentry.Base.{
  ℕ, ℤ, zero, suc, ◌+◌, ◌-◌, ◌≤◌, ltb, String, Bool, false, not, ◌||◌, [], ◌∷◌, ◌==◌, nat_eq,
  string_eq, if◌then◌else◌, ◌≡◌, refl, arith, concat, Bool-cases, ◌⊎◌, inl, inr, format_uint,
}
use krnl_sentry.Detect.Alert.{Alert, Severity, severity_string}
use krnl_sentry.Output.Terminal.{
  occurrences, visible_len, pad_visible, truncate, ansi_dim, ansi_blue, ansi_green,
}
use krnl_sentry.Output.Terminal.Columns.{
  Free, done, ◌▹◌, concat-Free, empty-Free, if-Free, number-Free, truncate-Free, pad_visible-Free,
}
use krnl_sentry.Output.Terminal.Visible.{
  Takes, IsStyle, finish, ◌▸◌, clean-Takes, visible-concat, concat-Takes, if-Takes, style-Takes,
  count-truncate, count-pad_visible, count-append,
}
use krnl_sentry.Output.Terminal.Styles.{
  dim-IsStyle, blue-IsStyle, green-IsStyle, severity_style-IsStyle, severity_string-ShortName,
}
use krnl_sentry.Output.Dashboard.Widgets.{
  paint, Columns, alert_columns, avail, shrink_rule, shrink_proc, overhead, min_desc_cols,
  min_name_cols,
}
use krnl_sentry.Output.Dashboard.Feed.{feed_desc, feed_row}

-- What a row takes with these columns.
abbrev pub row_width : Columns → ℕ
row_width c = overhead + c.rule + c.proc + (if ltb 0 c.mitre then c.mitre + 1 else 0) + c.desc

shrink_rule-bound :
    (fuel w rule proc mitre : ℕ)
    → rule ≤ fuel
    → min_name_cols ≤ rule
    → (shrink_rule fuel w rule proc mitre ≤ rule)
      × (min_name_cols ≤ shrink_rule fuel w rule proc mitre)
      × ((min_desc_cols ≤ avail w (shrink_rule fuel w rule proc mitre) proc mitre)
          ⊎ (shrink_rule fuel w rule proc mitre ≡ min_name_cols))
unfolding shrink_rule
shrink_rule-bound zero w rule proc mitre h least = absurd (omega arith)
shrink_rule-bound (suc fuel) w rule proc mitre h least =
    ground (arith, shrink_rule-bound fuel w (rule - 1) proc mitre)

shrink_proc-bound :
    (fuel w rule proc mitre : ℕ)
    → proc ≤ fuel
    → min_name_cols ≤ proc
    → (shrink_proc fuel w rule proc mitre ≤ proc)
      × (min_name_cols ≤ shrink_proc fuel w rule proc mitre)
      × ((min_desc_cols ≤ avail w rule (shrink_proc fuel w rule proc mitre) mitre)
          ⊎ (shrink_proc fuel w rule proc mitre ≡ min_name_cols))
unfolding shrink_proc
shrink_proc-bound zero w rule proc mitre h least = absurd (omega arith)
shrink_proc-bound (suc fuel) w rule proc mitre h least =
    ground (arith, shrink_proc-bound fuel w rule (proc - 1) mitre)

-- The columns fill the width, and none is narrower than its least width.
abbrev pub FillsWidth : ℕ → Columns → Type 0
FillsWidth w c =
    (row_width c ≡ w)
    × (min_desc_cols ≤ c.desc)
    × (min_name_cols ≤ c.rule)
    × (min_name_cols ≤ c.proc)

columns_of : ℕ → ℕ → Columns
columns_of w mitre =
    let rule = shrink_rule 21 w 21 18 mitre in
    let proc = shrink_proc 18 w rule 18 mitre in
    record { rule = rule; proc = proc; mitre = mitre; desc = avail w rule proc mitre }

columns_of-FillsWidth :
    (w mitre : ℕ)
    → 76 ≤ w
    → ((mitre ≡ 0) ⊎ ((mitre ≡ 10) × (91 ≤ w)))
    → FillsWidth w (columns_of w mitre)
unfolding columns_of avail
columns_of-FillsWidth w mitre h which =
    let rule = shrink_rule 21 w 21 18 mitre in
    ground (
      arith,
      which,
      shrink_rule-bound 21 w 21 18 mitre (omega arith) (omega arith),
      shrink_proc-bound 18 w rule 18 mitre (omega arith) (omega arith),
    )

pub alert_columns-FillsWidth : (w : ℕ) → 76 ≤ w → FillsWidth w (alert_columns w)
unfolding alert_columns
alert_columns-FillsWidth w h = elim (Bool-cases (ltb (avail w 21 18 10) min_desc_cols)) [
  | inl narrow ↦ rw narrow (unfold columns_of in columns_of-FillsWidth w 0 h (inl refl))
  | inr wide ↦
      rw wide (unfold columns_of in columns_of-FillsWidth w 10 h (inr (refl, wide_enough wide)))
]
  where
    wide_enough : ltb (avail w 21 18 10) min_desc_cols ≡ false → 91 ≤ w
    wide_enough e = unfold avail in ground (arith, e)

paint-Takes :
    (n : ℕ) (on : Bool) (style s : String) → IsStyle style → Takes n s → Takes n (paint on style s)
unfolding paint
paint-Takes n on style s hs h =
    if-Takes n (not on || style == "") s _ h (style-Takes n style s hs h)

-- A text without the byte that begins a control sequence.
abbrev pub NoEscape : String → Type 0
NoEscape = Free 27

cut_Takes : (n : ℕ) (s : String) → NoEscape s → Takes n (truncate s n)
cut_Takes n s h = clean-Takes n _ (truncate-Free 27 (omega arith) s n h) (count-truncate s n)

column_Takes : (n : ℕ) (s : String) → NoEscape s → Takes n (pad_visible (truncate s n) n)
column_Takes n s h =
    let cut = truncate-Free 27 (omega arith) s n h in
    clean-Takes n _ (pad_visible-Free 27 (omega arith) _ n cut)
      (omega (arith, count-pad_visible (truncate s n) n cut (count-truncate s n)))

space_Takes : Takes 1 " "
unfolding occurrences
space_Takes = clean-Takes 1 " " refl (omega arith)

badge_Takes :
    (s : Severity) → Takes 10 (pad_visible (concat (" " ∷ severity_string s ∷ " " ∷ [])) 10)
unfolding concat occurrences
badge_Takes s =
    let (clean, short) = severity_string-ShortName s in
    let badge = concat (" " ∷ severity_string s ∷ " " ∷ []) in
    let badge_clean =
      concat-Free 27 (" " ∷ severity_string s ∷ " " ∷ []) (refl ▹ clean ▹ refl ▹ done) in
    let fits : count badge ≤ 10 = omega (
      arith,
      short,
      count-append " " (severity_string s ++ (" " ++ "")),
      count-append (severity_string s) (" " ++ ""),
    ) in
    clean-Takes 10 _ (pad_visible-Free 27 (omega arith) badge 10 badge_clean)
      (omega (arith, count-pad_visible badge 10 badge_clean fits))

feed_desc-NoEscape : (a : Alert) → NoEscape a.description → NoEscape (feed_desc a)
unfolding feed_desc occurrences
feed_desc-NoEscape a desc =
    if-Free 27 (ltb 0 a.suppressed) _ a.description
      (concat-Free 27 _ (refl ▹ number-Free 27 (omega arith) a.suppressed ▹ refl ▹ desc ▹ done))
      desc

at_least : (m n : ℕ) (s : String) → m ≤ n → Takes m s → Takes n s
at_least m n s h takes t = omega (arith, takes t)

technique_Takes :
    (on : Bool) (n : ℕ) (id : String)
    → NoEscape id
    → Takes (if ltb 0 n then n + 1 else 0) (
        if ltb 0 n
        then concat (paint on ansi_dim (pad_visible (truncate id n) n) ∷ " " ∷ [])
        else "")
technique_Takes on n id h = elim (Bool-cases (ltb 0 n)) [
  | inl shown ↦ rw shown (
      at_least (n + (1 + 0)) (n + 1) _ (omega arith) (
        concat-Takes (n ∷ 1 ∷ []) _
          (paint-Takes n on ansi_dim _ dim-IsStyle (column_Takes n id h) ▸ space_Takes ▸ finish)))
  | inr hidden ↦ rw hidden (clean-Takes 0 "" (empty-Free 27) (omega arith))
]

-- The texts of an alert that a row shows hold no control sequence.
abbrev pub NoEscapeAlert : Alert → Type 0
NoEscapeAlert a = NoEscape a.comm × NoEscape a.rule × NoEscape a.mitre_id × NoEscape a.description

-- Let the clock's text be of at most 12 runes, and let neither it nor the command, rule, technique
-- and description of an alert hold an escape byte. On a frame of at least 76 columns the row of
-- the alert takes at most the width in printable columns, with colours or without, and the columns
-- that it is cut to leave at least 12 for the description and 10 each for the rule and the process.
pub feed_row-width :
    (clock : ℤ → String)
    → ((time : ℤ) → NoEscape (clock time) × (count (clock time) ≤ 12))
    → (on : Bool) (w : ℕ) (a : Alert) → 76 ≤ w
    → NoEscapeAlert a
    → (visible_len (feed_row clock on (alert_columns w) a) ≤ w) × FillsWidth w (alert_columns w)
unfolding feed_row occurrences
feed_row-width clock hour on w a wide (comm, rule, mitre, desc) =
    let cols = alert_columns w in
    let fills = alert_columns-FillsWidth w wide in
    let process = concat (a.comm ∷ "[" ∷ format_uint a.pid ∷ "]" ∷ []) in
    let process_clean =
      concat-Free 27 (a.comm ∷ "[" ∷ format_uint a.pid ∷ "]" ∷ [])
        (comm ▹ refl ▹ number-Free 27 (omega arith) a.pid ▹ refl ▹ done) in
    let technique = technique_Takes on cols.mitre a.mitre_id mitre in
    let (clean, short) = hour a.timestamp in
    let row =
      visible-concat
        (3
          ∷ 12
          ∷ 1
          ∷ 10
          ∷ 1
          ∷ cols.rule
          ∷ 1
          ∷ cols.proc
          ∷ 1
          ∷ (if ltb 0 cols.mitre then cols.mitre + 1 else 0)
          ∷ cols.desc
          ∷ [])
        _
        (clean-Takes 3 "   " refl (omega arith)
          ▸ paint-Takes 12 on ansi_dim _ dim-IsStyle (clean-Takes 12 _ clean short)
          ▸ space_Takes
          ▸ paint-Takes 10 on _ _ (severity_style-IsStyle a.severity) (badge_Takes a.severity)
          ▸ space_Takes
          ▸ paint-Takes cols.rule on ansi_blue _ blue-IsStyle (column_Takes cols.rule a.rule rule)
          ▸ space_Takes
          ▸ paint-Takes cols.proc on ansi_green _ green-IsStyle
              (column_Takes cols.proc process process_clean)
          ▸ space_Takes
          ▸ technique
          ▸ cut_Takes cols.desc (feed_desc a) (feed_desc-NoEscape a desc)
          ▸ finish) in
    (omega (arith, row, fills.0), fills)
