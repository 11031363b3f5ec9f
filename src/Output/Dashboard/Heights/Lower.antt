-- ===== src/Output/Dashboard/Heights/Lower.antt =====
-- The chain timeline, the alert feed and the footer.
use krnl_sentry.Base.{
  printable, ℕ, ℤ, zero, All-append, suc, ◌+◌, ◌-◌, ◌≤◌, ltb, String, Bool, true, false, ◌&&◌, List,
  [], ◌∷◌, ◌==◌, string_eq, nat_eq, if◌then◌else◌, ◌≡◌, refl, arith, concat, format_uint,
  format_int, format_int-printable, length, All, Bool-cases, Option-cases, inl, inr, subst, sym,
}
use mathlib.Core.List.{reverse, reverse-append}
use krnl_sentry.Detect.Alert.{Alert, StoryStep, severity_low, severity_string}
use krnl_sentry.Output.Terminal.{
  occurrences, truncate, ansi_bold, ansi_dim, ansi_green, ansi_yellow, ansi_blue, ansi_bg_red,
  ansi_white,
}
use krnl_sentry.Output.Terminal.Columns.{done, ◌▹◌, if-Free}
use krnl_sentry.Output.Dashboard.{Dashboard, Metrics}
use krnl_sentry.Output.Dashboard.Widgets.{max_int, paint, heading, Columns, alert_columns}
use krnl_sentry.Output.Dashboard.Widgets.OneLine.{
  OneLine, literal-OneLine, uint-OneLine, texts-OneLine, concat-total_lines, concat_bound,
  paint-OneLine, dim-OneLine, divider-OneLine, heading-OneLine,
}
use krnl_sentry.Output.Dashboard.Panels.{first_n}
use krnl_sentry.Output.Dashboard.Feed.{
  step_line, step_lines, dropped_line, timeline, render_storyline, feed_desc, feed_row, feed_rows,
  render_recent, complete, render_footer,
}
use krnl_sentry.Output.Dashboard.Heights.{
  pad_one, cut_one, severity_string-OneLine, severity_style-OneLine, IsOneLineRun, OneLineAlert,
  OneLineStep, OneLineChain,
}

printed : (s : String) → printable s ≡ true → OneLine s
printed s h = literal-OneLine s h

step_line-lines :
    (on : Bool) (w : ℕ) (last : Bool) (st : StoryStep)
    → OneLineStep st
    → occurrences 10 (step_line on w last st) ≤ 1
unfolding step_line occurrences
step_line-lines on w last st (comm, tactic, summary) =
    let process = concat (st.comm ∷ "[" ∷ format_uint st.pid ∷ "]" ∷ []) in
    let process_one : OneLine process =
      texts-OneLine _ (comm ▹ refl ▹ uint-OneLine st.pid ▹ refl ▹ done) in
    let offset = concat ("+" ∷ format_int st.offset_ms ∷ "ms" ∷ []) in
    let offset_one : OneLine offset =
      texts-OneLine _
        (refl ▹ printed (format_int st.offset_ms) (format_int-printable _) ▹ refl ▹ done) in
    concat_bound _ 1 (
      omega (
        arith,
        dim-OneLine on (if last then "└─" else "├─") (if-Free 10 last _ _ refl refl),
        dim-OneLine on _ (pad_one _ 9 offset_one),
        paint-OneLine on ansi_green _ refl (pad_one _ 16 (cut_one _ 16 process_one)),
        paint-OneLine on ansi_yellow _ refl (pad_one _ 30 (cut_one _ 30 tactic)),
        dim-OneLine on _ (cut_one st.summary (max_int 10 (w - 66)) summary),
      ))

step_lines-bound :
    (on : Bool) (w : ℕ) (closed : Bool) (steps : List StoryStep)
    → All OneLineStep steps
    → occurrences 10 (step_lines on w closed steps) ≤ length steps
unfolding step_lines occurrences
step_lines-bound on w closed [] h = omega arith
step_lines-bound on w closed (st ∷ steps) h = concat_bound _ (suc (length steps)) (
    omega (
      arith,
      step_line-lines on w (length steps == 0 && closed) st h.0,
      step_lines-bound on w closed steps h.1,
    ))

dropped_line-bound :
    (d : Dashboard) (n : ℕ)
    → OneLine d.opts.alert_path
    → (occurrences 10 (dropped_line d n) ≤ 1) × (n ≡ 0 → occurrences 10 (dropped_line d n) ≡ 0)
unfolding dropped_line occurrences
dropped_line-bound d n h = elim (Bool-cases (ltb 0 n)) [
  | inl more ↦ rw more (concat_bound _ 1 (omega (arith, branch, rest)), λ e. absurd (ground arith))
  | inr nothing ↦ rw nothing (omega arith, λ e. refl)
]
  where
    branch : OneLine (paint d.opts.color ansi_dim "└─")
    branch = dim-OneLine d.opts.color "└─" refl

    rest : OneLine (
        paint d.opts.color ansi_dim (
          concat
            ("… " ∷ format_uint n ∷ " more step(s) — full story in " ∷ d.opts.alert_path ∷ [])))
    rest = dim-OneLine d.opts.color _ (texts-OneLine _ (refl ▹ uint-OneLine n ▹ refl ▹ h ▹ done))

first_n-steps :
    (n : ℕ) (steps : List StoryStep)
    → All OneLineStep steps
    → (length (first_n n steps) ≤ n) × All OneLineStep (first_n n steps)
first_n-steps zero steps h = (omega arith, tt)
first_n-steps (suc n) [] h = (omega arith, tt)
first_n-steps (suc n) (st ∷ steps) h =
    let (few, ones) = first_n-steps n steps h.1 in (omega (arith, few), (h.0, ones))

timeline-bound :
    (d : Dashboard) (w : ℕ) (steps : List StoryStep) (rows : ℕ)
    → OneLine d.opts.alert_path
    → All OneLineStep steps
    → 1 ≤ rows
    → occurrences 10 (timeline d w steps rows) ≤ rows
unfolding timeline
timeline-bound d w steps rows path ones some_rows = elim (Bool-cases (ltb rows (length steps))) [
  | inl long ↦
      let (few, kept) = first_n-steps (rows - 1) steps ones in
      rw long (
        concat_bound _ rows (
          omega (
            arith,
            few,
            step_lines-bound d.opts.color w (length steps - (rows - 1) == 0)
                (first_n (rows - 1) steps) kept,
            (dropped_line-bound d (length steps - (rows - 1)) path).0,
          )))
  | inr short ↦ rw short (
      concat_bound _ rows (
        omega (
          arith,
          not_longer short,
          step_lines-bound d.opts.color w true steps ones,
          (dropped_line-bound d 0 path).1 refl,
        )))
]
  where
    not_longer : ltb rows (length steps) ≡ false → length steps ≤ rows
    not_longer h = ground arith

-- The chain panel takes a heading, the chain's line and the rows that it is given.
pub render_storyline-bound :
    (d : Dashboard) (w : ℕ) (m : Metrics) (rows : ℕ)
    → IsOneLineRun d
    → OneLineChain d.last_chain
    → 1 ≤ rows
    → occurrences 10 (render_storyline d w m rows) ≤ rows + 2
unfolding render_storyline occurrences
render_storyline-bound d w m rows run chain some_rows = elim (Option-cases d.last_chain) [
  | inl quiet ↦
      let text : String =
        "   no multi-tactic chain yet — alerts are being correlated by process tree" in
      let line = dim-OneLine d.opts.color text refl in
      let body = concat-total_lines (paint d.opts.color ansi_dim text ∷ "\n" ∷ []) in
      rw quiet (concat_bound _ (rows + 2) (omega (arith, head, some_rows, line, body)))
  | inr (a, found) ↦
      let known = subst OneLineChain found chain in
      let badge = concat (ansi_bg_red ∷ ansi_white ∷ ansi_bold ∷ []) in
      let badge_one =
        paint-OneLine d.opts.color badge " CRITICAL " (texts-OneLine _ (refl ▹ refl ▹ refl ▹ done))
          refl in
      let body = concat-total_lines (
        "   "
        ∷ paint d.opts.color badge " CRITICAL "
        ∷ " "
        ∷ truncate a.description (w - 16)
        ∷ "\n"
        ∷ timeline d w a.story rows
        ∷ []) in
      let steps = timeline-bound d w a.story rows run.alert_path known.1 some_rows in
      rw found (
        concat_bound _ (rows + 2)
          (omega (arith, head, body, badge_one, steps, cut_one a.description (w - 16) known.0)))
]
  where
    head : OneLine (
        heading d.opts.color
          (concat (
            "ATTACK CHAIN   open storylines "
            ∷ format_uint m.storylines
            ∷ "   chains raised "
            ∷ format_uint m.attack_chains
            ∷ []))
          w)
    head = heading-OneLine d.opts.color _ w (
        texts-OneLine _
          (refl ▹ uint-OneLine m.storylines ▹ refl ▹ uint-OneLine m.attack_chains ▹ done))

feed_desc-OneLine : (a : Alert) → OneLineAlert a → OneLine (feed_desc a)
unfolding feed_desc occurrences
feed_desc-OneLine a (comm, rule, mitre, desc) =
    if-Free 10 (ltb 0 a.suppressed) _ a.description
      (texts-OneLine _ (refl ▹ uint-OneLine a.suppressed ▹ refl ▹ desc ▹ done)) desc

All-reverse : (alerts : List Alert) → All OneLineAlert alerts → All OneLineAlert (reverse alerts)
All-reverse [] h = tt
All-reverse (a ∷ alerts) h =
    subst (All OneLineAlert) (sym (reverse-append (a ∷ []) alerts))
      (All-append OneLineAlert (reverse alerts) (a ∷ []) (All-reverse alerts h.1) (h.0, tt))

module _ (clock : ℤ → String) (one : (t : ℤ) → OneLine (clock t)) where
  feed_row-OneLine :
      (on : Bool) (cols : Columns) (a : Alert) → OneLineAlert a → OneLine (feed_row clock on cols a)
  unfolding feed_row occurrences
  feed_row-OneLine on cols a (comm, rule, mitre, desc) = texts-OneLine _ (
      refl
      ▹ dim-OneLine on _ (one a.timestamp)
      ▹ refl
      ▹ paint-OneLine on _ _ (severity_style-OneLine a.severity)
          (pad_one _ 10 (texts-OneLine _ (refl ▹ severity_string-OneLine a.severity ▹ refl ▹ done)))
      ▹ refl
      ▹ paint-OneLine on ansi_blue _ refl (pad_one _ cols.rule (cut_one a.rule cols.rule rule))
      ▹ refl
      ▹ paint-OneLine on ansi_green _ refl (
          pad_one _ cols.proc (
            cut_one _ cols.proc (texts-OneLine _ (comm ▹ refl ▹ uint-OneLine a.pid ▹ refl ▹ done))))
      ▹ refl
      ▹ if-Free 10 (ltb 0 cols.mitre) _ _
          (texts-OneLine _ (
            dim-OneLine on _ (pad_one _ cols.mitre (cut_one a.mitre_id cols.mitre mitre))
            ▹ refl
            ▹ done))
          refl
      ▹ cut_one (feed_desc a) cols.desc (feed_desc-OneLine a (comm, rule, mitre, desc))
      ▹ done)

  feed_rows-bound :
      (d : Dashboard) (cols : Columns) (alerts : List Alert) (rows : ℕ)
      → All OneLineAlert alerts
      → occurrences 10 (feed_rows clock d cols alerts rows) ≤ rows
  unfolding feed_rows occurrences
  feed_rows-bound d cols [] rows h = omega arith
  feed_rows-bound d cols (a ∷ older) zero h = omega arith
  feed_rows-bound d cols (a ∷ older) (suc rows) h =
      elim (Bool-cases (ltb a.severity d.opts.min_severity)) [
        | inl low ↦ rw low (feed_rows-bound d cols older (suc rows) h.1)
        | inr high ↦ rw high (
            concat_bound _ (suc rows) (
              omega (
                arith,
                feed_row-OneLine d.opts.color cols a h.0,
                feed_rows-bound d cols older rows h.1,
              )))
      ]

  -- The feed takes a heading and at most the rows that it is given.
  pub render_recent-bound :
      (d : Dashboard) (w rows : ℕ)
      → All OneLineAlert d.recent
      → 1 ≤ rows
      → occurrences 10 (render_recent clock d w rows) ≤ rows + 1
  unfolding render_recent occurrences
  render_recent-bound d w rows h some_rows = elim (Bool-cases (length d.recent == 0)) [
    | inl quiet ↦
        let text : String = "   watching — no alerts yet" in
        let body = concat-total_lines (paint d.opts.color ansi_dim text ∷ "\n" ∷ []) in
        rw quiet (
          concat_bound _ (rows + 1)
            (omega (arith, head, some_rows, body, dim-OneLine d.opts.color text refl)))
    | inr busy ↦
        let shown =
          feed_rows-bound d (alert_columns w) (reverse d.recent) rows (All-reverse d.recent h) in
        rw busy (concat_bound _ (rows + 1) (omega (arith, head, shown)))
  ]
    where
      count : OneLine (concat ("RECENT ALERTS   " ∷ format_uint d.total ∷ " total" ∷ []))
      count = texts-OneLine _ (refl ▹ uint-OneLine d.total ▹ refl ▹ done)

      head : OneLine (
          heading d.opts.color
            (if ltb severity_low d.opts.min_severity
              then concat (
                  concat ("RECENT ALERTS   " ∷ format_uint d.total ∷ " total" ∷ [])
                  ∷ "   showing "
                  ∷ severity_string d.opts.min_severity
                  ∷ " and above"
                  ∷ [])
              else concat ("RECENT ALERTS   " ∷ format_uint d.total ∷ " total" ∷ []))
            w)
      head = heading-OneLine d.opts.color _ w (
          if-Free 10 (ltb severity_low d.opts.min_severity) _ _
            (texts-OneLine _
              (count ▹ refl ▹ severity_string-OneLine d.opts.min_severity ▹ refl ▹ done))
            count)

pub render_footer-bound :
    (d : Dashboard) (w : ℕ) (m : Metrics)
    → IsOneLineRun d
    → occurrences 10 (render_footer d w m) ≤ 1
unfolding render_footer occurrences
render_footer-bound d w m h = concat_bound _ 1 (
    omega (
      arith,
      divider-OneLine d.opts.color "╰" "╯" w (concat ("alerts → " ∷ d.opts.alert_path ∷ []))
          (if d.opts.mode == "replay" && complete m.progress
            then "replay complete"
            else "Ctrl+C to stop")
          ansi_dim refl refl (texts-OneLine _ (refl ▹ h.alert_path ▹ done))
          (if-Free 10 (d.opts.mode == "replay" && complete m.progress) "replay complete"
            "Ctrl+C to stop" refl refl)
          refl,
    ))
