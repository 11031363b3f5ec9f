-- ===== src/Output/Dashboard/Panels.antt =====
-- output/dashboard.go: the panels of a frame. The maps are walked in the order in which they are
-- stored; the width w is at least 76.
use krnl_sentry.Base.{
  ℕ, ℤ, zero, suc, ◌+◌, ◌-◌, ◌/◌, ◌%◌, ◌^◌, ltb, leb, String, Bool, true, false, ◌&&◌, List, [],
  ◌∷◌, ◌++◌, map, if◌then◌else◌, ◌==◌, nat_eq, string_eq, concat, format_uint, length, sort_texts,
}
use Prim.Native.String.{len}
use krnl_sentry.Detect.Alert.{
  Severity, severity_low, severity_medium, severity_high, severity_critical, severity_string,
}
use krnl_sentry.Detect.Storyline.Tactics.{
  Tactic, tactic_execution, tactic_priv_esc, tactic_defense_evasion, tactic_credential_access,
  tactic_command_control,
}
use krnl_sentry.Output.Terminal.{
  ansi_bold, ansi_dim, ansi_red, ansi_green, ansi_yellow, ansi_blue, ansi_cyan, severity_style,
  bar_style, pad_visible, truncate, pad_left, wrap_chips, format_count,
}
use krnl_sentry.Output.Dashboard.{
  Dashboard, Metrics, Progress, not_applicable, part, ProcKey, proc_eq, tally,
}
use krnl_sentry.Output.Dashboard.Widgets.{
  max_int, paint, style_if, divider, heading, heading2, format_duration, to_upper, bar, meter,
}

pub record StatCell : Type 0 where
  pub label : String
  pub value : String
  pub style : String

-- statLine, after its first space.
unfoldable pub stat_cells : Bool → List StatCell → String
stat_cells on [] = ""
stat_cells on (c ∷ cells) =
    concat
      ("  " ∷ paint on ansi_dim c.label ∷ " " ∷ paint on c.style c.value ∷ stat_cells on cells ∷ [])

unfoldable pub stat_line : Bool → List StatCell → String
stat_line on cells = concat (" " ∷ stat_cells on cells ∷ [])

-- The counters of the header.
unfoldable pub header_cells : Dashboard → Metrics → List StatCell
header_cells d m =
    let drops = (m.queue_dropped + m.kernel_drops) % 2 ^ 64 in
    record { label = "events"; value = format_count m.observed; style = "" }
    ∷ record {
      label = "alerts";
      value = format_count d.total;
      style = style_if (ltb 0 d.total) ansi_bold;
    }
    ∷ record { label = "folded"; value = format_count m.suppressed; style = "" }
    ∷ record { label = "tracked"; value = format_count m.tracked_procs; style = "" }
    ∷ record {
      label = "drops";
      value = format_count drops;
      style = style_if (ltb 0 drops) (concat (ansi_red ∷ ansi_bold ∷ []));
    }
    ∷ (if ltb 0 m.write_errors
        then record {
          label = "write errors";
          value = format_count m.write_errors;
          style = ansi_red;
        }
          ∷ []
        else [])

-- The title of the header.
unfoldable pub header_title : Dashboard → String
header_title d =
    let left =
      concat (
        "KrnlSentry "
        ∷ d.opts.version
        ∷ " · "
        ∷ to_upper d.opts.mode
        ∷ " · "
        ∷ d.opts.scope
        ∷ []) in
    if d.opts.source == "" then left else concat (left ∷ " · " ∷ d.opts.source ∷ [])

abbrev pub severity_order : List Severity
severity_order = severity_critical ∷ severity_high ∷ severity_medium ∷ severity_low ∷ []

module _ (scaled : ℕ → ℕ → ℕ → ℕ) where
  -- The progress of a replay.
  unfoldable pub progress_line : Bool → ℕ → Progress → String
  progress_line on w not_applicable = ""
  progress_line on w (part read total) =
      let bar_w = max_int 10 (w - 22) in
      let percent = if leb total read then 100 else scaled read total 100 in
      concat (
        "  replay   "
        ∷ paint on ansi_cyan (meter scaled read total bar_w)
        ∷ " "
        ∷ pad_left " " 3 (format_uint percent)
        ∷ "%\n"
        ∷ [])

  -- renderHeader.
  unfoldable pub render_header : Dashboard → Metrics → ℤ → ℕ → String
  render_header d m uptime w =
      let on = d.opts.color in
      concat (
        divider on "╭" "╮" w (header_title d) (format_duration uptime)
          (concat (ansi_bold ∷ ansi_cyan ∷ []))
        ∷ "\n"
        ∷ stat_line on (header_cells d m)
        ∷ "\n"
        ∷ progress_line on w m.progress
        ∷ divider on "╰" "╯" w "" "" ansi_dim
        ∷ "\n"
        ∷ [])

  -- The largest of the counts.
  unfoldable pub most : Dashboard → List Severity → ℕ
  most d [] = 0
  most d (s ∷ ss) = let n = tally s d.by_severity in max_int n (most d ss)

  unfoldable pub severity_row : Dashboard → ℕ → ℕ → Severity → String
  severity_row d greatest w s =
      let on = d.opts.color in
      let n = tally s d.by_severity in
      let bar_w = max_int 8 (w - 16) in
      let style = if s == severity_critical && n == 0 then ansi_dim else severity_style s in
      concat (
        paint on style (pad_visible (severity_string s) 8)
        ∷ " "
        ∷ paint on (bar_style s) (pad_visible (bar scaled n greatest bar_w) bar_w)
        ∷ " "
        ∷ pad_visible (format_count n) 5
        ∷ [])

  -- severityRows.
  unfoldable pub severity_rows : Dashboard → ℕ → List String
  severity_rows d w = map (severity_row d (most d severity_order) w) severity_order

-- contains, on texts.
unfoldable pub contains_name : List String → String → Bool
contains_name [] needle = false
contains_name (s ∷ haystack) needle = if s == needle then true else contains_name haystack needle

unfoldable pub fired_names : List (String × ℕ) → List String
fired_names [] = []
fired_names ((name, n) ∷ counts) = name ∷ fired_names counts

-- The names of rules that fired and are not listed yet go to the end.
unfoldable pub add_missing : List String → List String → List String
add_missing [] names = names
add_missing (name ∷ fired) names =
    add_missing fired (if contains_name names name then names else names ++ (name ∷ []))

-- The names that ruleRows lists.
unfoldable pub rule_names : Dashboard → List String
rule_names d =
    let fired = fired_names d.by_rule in
    let enabled = if length d.opts.rules == 0 then sort_texts fired else d.opts.rules in
    add_missing fired enabled

unfoldable pub rule_row : Dashboard → ℕ → String → String
rule_row d w name =
    let n = tally name d.by_rule in
    concat (
      paint d.opts.color (if ltb 0 n then ansi_blue else ansi_dim)
        (pad_visible (truncate name (w - 7)) (w - 7))
      ∷ " "
      ∷ pad_visible (format_count n) 5
      ∷ [])

-- ruleRows.
unfoldable pub rule_rows : Dashboard → ℕ → List String
rule_rows d w = map (rule_row d w) (rule_names d)

unfoldable pub side_row : ℕ → String → String → String
side_row w l r = concat ("  " ∷ pad_visible l (w / 2 - 2) ∷ "  " ∷ r ∷ "\n" ∷ [])

-- The rows of two panels side by side, as many as the longer one has.
unfoldable pub side_by_side : ℕ → List String → List String → String
side_by_side w [] [] = ""
side_by_side w [] (r ∷ right) = concat (side_row w "" r ∷ side_by_side w [] right ∷ [])
side_by_side w (l ∷ left) [] = concat (side_row w l "" ∷ side_by_side w left [] ∷ [])
side_by_side w (l ∷ left) (r ∷ right) = concat (side_row w l r ∷ side_by_side w left right ∷ [])

-- renderSeverityAndRules.
unfoldable pub render_severity_and_rules : (ℕ → ℕ → ℕ → ℕ) → Dashboard → ℕ → String
render_severity_and_rules scaled d w =
    let left = severity_rows scaled d (w / 2 - 2) in
    let right = rule_rows d (w - w / 2 - 2) in
    concat (heading2 d.opts.color "SEVERITY" "RULES" w ∷ "\n" ∷ side_by_side w left right ∷ [])

-- A chip of renderTactics with the bytes of its label.
unfoldable pub tactic_chip : Dashboard → Tactic → String × ℕ
tactic_chip d t =
    let seen = ltb 0 (tally t.name d.by_tactic) in
    let label = concat ((if seen then "●" else "·") ∷ " " ∷ t.name ∷ []) in
    let style = if seen then concat (ansi_yellow ∷ ansi_bold ∷ []) else ansi_dim in
    (paint d.opts.color style label, len label)

-- renderTactics.
unfoldable pub render_tactics : Dashboard → ℕ → String
render_tactics d w =
    let tactics =
      tactic_execution ∷ tactic_priv_esc ∷ tactic_defense_evasion ∷ tactic_credential_access
      ∷ tactic_command_control ∷ [] in
    concat (
      heading d.opts.color "ATT&CK TACTICS" w
      ∷ "\n"
      ∷ wrap_chips (map (tactic_chip d) tactics) (w - 4) "   " "   "
      ∷ [])

-- More alerts first, then the smaller PID.
unfoldable pub busier : ProcKey × ℕ → ProcKey × ℕ → Bool
busier (k, m) (l, n) = if m == n then ltb k.pid l.pid else ltb n m

unfoldable pub insert_busy : ProcKey × ℕ → List (ProcKey × ℕ) → List (ProcKey × ℕ)
insert_busy e [] = e ∷ []
insert_busy e (f ∷ fs) = if busier f e then f ∷ insert_busy e fs else e ∷ f ∷ fs

unfoldable pub sort_busy : List (ProcKey × ℕ) → List (ProcKey × ℕ)
unfolding insert_busy
sort_busy [] = []
sort_busy (e ∷ es) = insert_busy e (sort_busy es)

-- The first n entries of a list.
abbrev pub first_n {ℓ} : {A : Type ℓ} → ℕ → List A → List A
first_n zero xs = []
first_n (suc n) [] = []
first_n (suc n) (x ∷ xs) = x ∷ first_n n xs

abbrev pub max_proc_rows : ℕ
max_proc_rows = 6

-- A chip of renderProcesses with the bytes of its label.
unfoldable pub process_chip : Dashboard → ProcKey × ℕ → String × ℕ
process_chip d (k, n) =
    let process = concat (k.comm ∷ "[" ∷ format_uint k.pid ∷ "]" ∷ []) in
    let times = concat ("×" ∷ format_uint n ∷ []) in
    (
      concat (paint d.opts.color ansi_green process ∷ " " ∷ paint d.opts.color ansi_dim times ∷ []),
      len (concat (process ∷ " " ∷ times ∷ [])),
    )

-- renderProcesses.
unfoldable pub render_processes : Dashboard → ℕ → String
render_processes d w =
    let busiest = first_n max_proc_rows (sort_busy d.by_process) in
    let chips = map (process_chip d) busiest in
    if length d.by_process == 0
    then ""
    else concat
        (heading d.opts.color "TOP PROCESSES" w ∷ "\n" ∷ wrap_chips chips (w - 4) "   " "   " ∷ [])
