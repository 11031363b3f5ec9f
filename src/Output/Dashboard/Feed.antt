-- ===== src/Output/Dashboard/Feed.antt =====
-- output/dashboard.go: the chain timeline, the alert feed and the footer. `clock` stands for
-- time.Time.Format("15:04:05.000") in the local time zone.
use krnl_sentry.Base.{
  ℕ, ℤ, zero, suc, ◌-◌, ltb, leb, String, Bool, false, ◌&&◌, List, [], ◌∷◌, none, some,
  if◌then◌else◌, ◌==◌, nat_eq, string_eq, concat, format_uint, format_int, length,
}
use mathlib.Core.List.{reverse}
use krnl_sentry.Detect.Alert.{Alert, StoryStep, severity_low, severity_string}
use krnl_sentry.Output.Terminal.{
  ansi_bold, ansi_dim, ansi_green, ansi_yellow, ansi_blue, ansi_white, ansi_bg_red, severity_style,
  pad_visible, truncate,
}
use krnl_sentry.Output.Dashboard.{Dashboard, Metrics, Progress, not_applicable, part}
use krnl_sentry.Output.Dashboard.Widgets.{max_int, paint, divider, heading, Columns, alert_columns}
use krnl_sentry.Output.Dashboard.Panels.{first_n}

-- One step of the timeline; `last` draws the branch that ends it.
unfoldable pub step_line : Bool → ℕ → Bool → StoryStep → String
step_line on w last st =
    let process = concat (st.comm ∷ "[" ∷ format_uint st.pid ∷ "]" ∷ []) in
    concat (
      "   "
      ∷ paint on ansi_dim (if last then "└─" else "├─")
      ∷ " "
      ∷ paint on ansi_dim (pad_visible (concat ("+" ∷ format_int st.offset_ms ∷ "ms" ∷ [])) 9)
      ∷ " "
      ∷ paint on ansi_green (pad_visible (truncate process 16) 16)
      ∷ " "
      ∷ paint on ansi_yellow (pad_visible (truncate st.tactic 30) 30)
      ∷ " "
      ∷ paint on ansi_dim (truncate st.summary (max_int 10 (w - 66)))
      ∷ "\n"
      ∷ [])

-- The steps; `closed` says that the last one ends the timeline.
unfoldable pub step_lines : Bool → ℕ → Bool → List StoryStep → String
step_lines on w closed [] = ""
step_lines on w closed (st ∷ steps) =
    concat (step_line on w (length steps == 0 && closed) st ∷ step_lines on w closed steps ∷ [])

-- The line that accounts for the steps that are not shown.
unfoldable pub dropped_line : Dashboard → ℕ → String
dropped_line d dropped =
    let on = d.opts.color in
    let rest =
      concat
        ("… " ∷ format_uint dropped ∷ " more step(s) — full story in " ∷ d.opts.alert_path ∷ []) in
    if ltb 0 dropped
    then concat ("   " ∷ paint on ansi_dim "└─" ∷ " " ∷ paint on ansi_dim rest ∷ "\n" ∷ [])
    else ""

-- The timeline of a chain in `rows` lines.
unfoldable pub timeline : Dashboard → ℕ → List StoryStep → ℕ → String
timeline d w steps rows =
    let on = d.opts.color in
    let long = ltb rows (length steps) in
    let dropped = if long then length steps - (rows - 1) else 0 in
    let shown = if long then first_n (rows - 1) steps else steps in
    concat (step_lines on w (dropped == 0) shown ∷ dropped_line d dropped ∷ [])

-- renderStoryline.
unfoldable pub render_storyline : Dashboard → ℕ → Metrics → ℕ → String
render_storyline d w m rows =
    let on = d.opts.color in
    let label = concat (
      "ATTACK CHAIN   open storylines "
      ∷ format_uint m.storylines
      ∷ "   chains raised "
      ∷ format_uint m.attack_chains
      ∷ []) in
    let quiet : String =
      "   no multi-tactic chain yet — alerts are being correlated by process tree" in
    let badge = concat (ansi_bg_red ∷ ansi_white ∷ ansi_bold ∷ []) in
    concat (
      heading on label w
      ∷ "\n"
      ∷ elim d.last_chain [
        | none ↦ concat (paint on ansi_dim quiet ∷ "\n" ∷ [])
        | some a ↦ concat (
            "   "
            ∷ paint on badge " CRITICAL "
            ∷ " "
            ∷ truncate a.description (w - 16)
            ∷ "\n"
            ∷ timeline d w a.story rows
            ∷ [])
      ]
      ∷ [])

-- The description with the number of alerts that were folded into it.
unfoldable pub feed_desc : Alert → String
feed_desc a =
    if ltb 0 a.suppressed
    then concat ("(+" ∷ format_uint a.suppressed ∷ " folded) " ∷ a.description ∷ [])
    else a.description

module _ (clock : ℤ → String) where
  -- One row of the feed, without its line end.
  unfoldable pub feed_row : Bool → Columns → Alert → String
  feed_row on cols a =
      let process = concat (a.comm ∷ "[" ∷ format_uint a.pid ∷ "]" ∷ []) in
      concat (
        "   "
        ∷ paint on ansi_dim (clock a.timestamp)
        ∷ " "
        ∷ paint on (severity_style a.severity)
            (pad_visible (concat (" " ∷ severity_string a.severity ∷ " " ∷ [])) 10)
        ∷ " "
        ∷ paint on ansi_blue (pad_visible (truncate a.rule cols.rule) cols.rule)
        ∷ " "
        ∷ paint on ansi_green (pad_visible (truncate process cols.proc) cols.proc)
        ∷ " "
        ∷ (if ltb 0 cols.mitre
            then concat (
                paint on ansi_dim (pad_visible (truncate a.mitre_id cols.mitre) cols.mitre)
                ∷ " "
                ∷ [])
            else "")
        ∷ truncate (feed_desc a) cols.desc
        ∷ [])

  -- The rows of the feed from a list of alerts, newest first, while `rows` are left.
  unfoldable pub feed_rows : Dashboard → Columns → List Alert → ℕ → String
  feed_rows d cols [] rows = ""
  feed_rows d cols (a ∷ older) zero = ""
  feed_rows d cols (a ∷ older) (suc rows) =
      let skipped = feed_rows d cols older (suc rows) in
      let shown = concat (feed_row d.opts.color cols a ∷ "\n" ∷ feed_rows d cols older rows ∷ []) in
      if ltb a.severity d.opts.min_severity then skipped else shown

  -- renderRecent.
  unfoldable pub render_recent : Dashboard → ℕ → ℕ → String
  render_recent d w rows =
      let on = d.opts.color in
      let count = concat ("RECENT ALERTS   " ∷ format_uint d.total ∷ " total" ∷ []) in
      let label =
        if ltb severity_low d.opts.min_severity
        then concat
            (count ∷ "   showing " ∷ severity_string d.opts.min_severity ∷ " and above" ∷ [])
        else count in
      let quiet = concat (paint on ansi_dim "   watching — no alerts yet" ∷ "\n" ∷ []) in
      let rows = feed_rows d (alert_columns w) (reverse d.recent) rows in
      concat (heading on label w ∷ "\n" ∷ (if length d.recent == 0 then quiet else rows) ∷ [])

-- m.Progress >= 1.
unfoldable pub complete : Progress → Bool
complete not_applicable = false
complete (part read total) = leb total read

-- renderFooter.
unfoldable pub render_footer : Dashboard → ℕ → Metrics → String
render_footer d w m =
    let right =
      if d.opts.mode == "replay" && complete m.progress
      then "replay complete"
      else "Ctrl+C to stop" in
    concat (
      divider d.opts.color "╰" "╯" w (concat ("alerts → " ∷ d.opts.alert_path ∷ [])) right ansi_dim
      ∷ "\n"
      ∷ [])
