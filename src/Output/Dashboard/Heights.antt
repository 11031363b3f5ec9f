-- ===== src/Output/Dashboard/Heights.antt =====
-- How many lines each panel of output/dashboard.go takes.
pub mod Top
pub mod Lower
use krnl_sentry.Base.{
  ℕ, ℤ, zero, suc, ◌+◌, ◌-◌, ◌/◌, ◌%◌, ◌^◌, ◌≤◌, ltb, leb, String, Bool, true, false, not, ◌&&◌,
  List, [], ◌∷◌, ◌++◌, map, Option, none, some, ◌==◌, string_eq, nat_eq, if◌then◌else◌, ◌≡◌, refl,
  arith, concat, format_uint, format_int, format_int-printable, length, All, Bool-cases,
  Option-cases, inl, inr, get_or_else, subst, sym,
}
use mathlib.Core.List.{reverse}
use krnl_sentry.Dict.{lookup}
use krnl_sentry.Dict.Laws.{Values-lookup}
use krnl_sentry.Detect.Alert.{
  Alert, Severity, StoryStep, severity_critical, severity_high, severity_medium, severity_low,
  severity_names, severity_string,
}
use krnl_sentry.Output.Terminal.{
  occurrences, severity_styles, severity_style, bar_style, pad_visible, truncate, pad_left,
  format_count, ansi_bold, ansi_dim, ansi_red, ansi_green, ansi_yellow, ansi_blue, ansi_cyan,
}
use krnl_sentry.Output.Terminal.Columns.{
  Free, Frees, done, ◌▹◌, append-Free, empty-Free, if-Free, pad_visible-Free, truncate-Free,
  pad_left-Free, format_count-Free,
}
use krnl_sentry.Output.Dashboard.{Dashboard, Metrics, Progress, not_applicable, part, tally}
use krnl_sentry.Output.Dashboard.Widgets.{
  max_int, paint, style_if, divider, heading, heading2, Columns,
}
use krnl_sentry.Output.Dashboard.Widgets.OneLine.{
  OneLine, literal-OneLine, uint-OneLine, texts-OneLine, total_lines, concat-total_lines,
  concat_bound, paint-OneLine, dim-OneLine, divider-OneLine, heading-OneLine, heading2-OneLine,
  format_duration-OneLine, to_upper-OneLine, bar-OneLine, meter-OneLine,
}
use krnl_sentry.Output.Dashboard.Panels.{
  StatCell, stat_cells, stat_line, header_cells, header_title, progress_line, render_header, most,
  severity_row, severity_rows, severity_order, rule_names, rule_row, rule_rows, side_row,
  side_by_side, render_severity_and_rules, first_n,
}
use krnl_sentry.Output.Dashboard.Feed.{
  step_line, step_lines, dropped_line, timeline, render_storyline, feed_desc, feed_row, feed_rows,
  render_recent, complete, render_footer,
}

abbrev pub count_one : (n : ℕ) → OneLine (format_count n)
count_one n = format_count-Free 10 (omega arith) n

pub pad_one : (s : String) (w : ℕ) → OneLine s → OneLine (pad_visible s w)
pad_one s w h = pad_visible-Free 10 (omega arith) s w h

pub cut_one : (s : String) (w : ℕ) → OneLine s → OneLine (truncate s w)
cut_one s w h = truncate-Free 10 (omega arith) s w h

pub severity_string-OneLine : (s : Severity) → OneLine (severity_string s)
unfolding severity_string severity_names occurrences
severity_string-OneLine s = elim (Option-cases (lookup s severity_names)) [
  | inl nothing ↦ rw (nothing, severity_string) refl
  | inr (name, found) ↦
      rw (found, severity_string) (Values-lookup OneLine s severity_names table found)
]
  where
    table : All (λ (p : Severity × String). OneLine p.1) severity_names
    table = (refl, (refl, (refl, (refl, tt))))

pub severity_style-OneLine : (s : Severity) → OneLine (severity_style s)
unfolding severity_style severity_styles occurrences
severity_style-OneLine s = elim (Option-cases (lookup s severity_styles)) [
  | inl nothing ↦ rw nothing refl
  | inr (style, found) ↦ rw found (Values-lookup OneLine s severity_styles table found)
]
  where
    table : All (λ (p : Severity × String). OneLine p.1) severity_styles
    table = (refl, (refl, (refl, (refl, tt))))

pub bar_style-OneLine : (s : Severity) → OneLine (bar_style s)
unfolding bar_style occurrences
bar_style-OneLine s =
    if-Free 10 (s == severity_critical) _ _ refl
      (if-Free 10 (s == severity_high) _ _ refl (if-Free 10 (s == severity_medium) _ _ refl refl))

style_if-OneLine : (b : Bool) (style : String) → OneLine style → OneLine (style_if b style)
unfolding style_if
style_if-OneLine b style h = if-Free 10 b style "" h (empty-Free 10)

-- The texts that the run gives the dashboard, and the names of the rules that it lists.
pub record IsOneLineRun (d : Dashboard) : Type 0 where
  pub version : OneLine d.opts.version
  pub mode : OneLine d.opts.mode
  pub scope : OneLine d.opts.scope
  pub source : OneLine d.opts.source
  pub alert_path : OneLine d.opts.alert_path
  pub names : Frees 10 (rule_names d)

-- The texts of an alert that the feed shows.
abbrev pub OneLineAlert : Alert → Type 0
OneLineAlert a = OneLine a.comm × OneLine a.rule × OneLine a.mitre_id × OneLine a.description

-- The texts of a step that the timeline shows.
abbrev pub OneLineStep : StoryStep → Type 0
OneLineStep st = OneLine st.comm × OneLine st.tactic × OneLine st.summary

-- The texts of the chain that the dashboard shows.
abbrev pub OneLineChain : Option Alert → Type 0
OneLineChain none = Unit
OneLineChain (some a) = OneLine a.description × All OneLineStep a.story

abbrev pub OneLineCell : StatCell → Type 0
OneLineCell c = OneLine c.label × OneLine c.value × OneLine c.style

pub stat_cells-OneLine :
    (on : Bool) (cells : List StatCell) → All OneLineCell cells → OneLine (stat_cells on cells)
unfolding stat_cells occurrences
stat_cells-OneLine on [] h = refl
stat_cells-OneLine on (c ∷ cells) h = texts-OneLine _ (
    refl
    ▹ dim-OneLine on c.label h.0.0
    ▹ refl
    ▹ paint-OneLine on c.style c.value h.0.2 h.0.1
    ▹ stat_cells-OneLine on cells h.1
    ▹ done)

pub header_cells-OneLine : (d : Dashboard) (m : Metrics) → All OneLineCell (header_cells d m)
unfolding header_cells occurrences
header_cells-OneLine d m = (
  (refl, count_one _, refl),
  (
    (refl, count_one _, style_if-OneLine _ ansi_bold refl),
    (
      (refl, count_one _, refl),
      (
        (refl, count_one _, refl),
        ((refl, count_one _, style_if-OneLine _ _ (texts-OneLine _ (refl ▹ refl ▹ done))), last),
      ),
    ),
  ),
)
  where
    last : All OneLineCell (
        if ltb 0 m.write_errors
        then record {
          label = "write errors";
          value = format_count m.write_errors;
          style = ansi_red;
        }
          ∷ []
        else [])
    last = elim (Bool-cases (ltb 0 m.write_errors)) [
      | inl some_errors ↦ rw some_errors ((refl, count_one _, refl), tt)
      | inr no_errors ↦ rw no_errors tt
    ]
