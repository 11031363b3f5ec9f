-- ===== src/Output/Dashboard/Frame/Usable.antt =====
-- The frame fits a terminal of 24 rows.
use krnl_sentry.Base.{
  ℕ, ℤ, zero, suc, ◌+◌, ◌-◌, ◌≤◌, String, false, [], ◌∷◌, some, if◌then◌else◌, ◌==◌, nat_eq, ◌≡◌,
  refl, sym, subst, arith, length, All, inl, inr,
}
use krnl_sentry.Output.Terminal.{occurrences}
use krnl_sentry.Output.Dashboard.{Dashboard}
use krnl_sentry.Output.Dashboard.Widgets.{Terminal, terminal_height, frame_width}
use krnl_sentry.Output.Dashboard.Widgets.OneLine.{OneLine, concat_bound}
use krnl_sentry.Output.Dashboard.Panels.{rule_names}
use krnl_sentry.Output.Dashboard.Heights.{IsOneLineRun, OneLineAlert, OneLineChain}
use krnl_sentry.Output.Dashboard.Heights.Top.{render_header-bound, render_severity_and_rules-bound}
use krnl_sentry.Output.Dashboard.Heights.Lower.{
  render_storyline-bound, render_recent-bound, render_footer-bound,
}
use krnl_sentry.Output.Dashboard.Frame.{
  Layout, full_layout, shed, Moment, render_context, render_frame, render, min_recent_rows,
  min_story_rows, min_usable_height,
}
use krnl_sentry.Output.Dashboard.Frame.Fit.{left_to_shed, layout_after, shed-left, render-Returns}

-- What the dashboard shows has no line ends, and at most five rules are listed.
pub record IsUsable (d : Dashboard) : Type 0 where
  pub run : IsOneLineRun d
  pub rules : length (rule_names d) ≤ 5
  pub feed : All OneLineAlert d.recent
  pub chain : OneLineChain d.last_chain

-- The panels that never go have some rows.
abbrev HasRows : Layout → Type 0
HasRows lay = (min_recent_rows ≤ lay.recent_rows) × (min_story_rows ≤ lay.story_rows)

shed-HasRows : (lay less : Layout) → shed lay ≡ some less → HasRows lay → HasRows less
unfolding shed
shed-HasRows lay less e h = ground (arith, h.0, h.1)

layout_after-bare :
    (n : ℕ) (lay : Layout)
    → n ≡ left_to_shed lay
    → HasRows lay
    → (left_to_shed (layout_after n lay) ≡ 0) × HasRows (layout_after n lay)
unfolding layout_after
layout_after-bare zero lay e h = (omega arith, h)
layout_after-bare (suc n) lay e h = elim (shed-left lay) [
  | inl (stop, nothing) ↦ absurd (omega arith)
  | inr (less, step, one) ↦
      subst (λ l. (left_to_shed l ≡ 0) × HasRows l) (sym (after step))
        (layout_after-bare n less (omega arith) (shed-HasRows lay less step h))
]
  where
    after : {less : Layout} → shed lay ≡ some less → layout_after (suc n) lay ≡ layout_after n less
    after step = rw (step, layout_after) refl

bare_context :
    (d : Dashboard) (w : ℕ) (lay : Layout)
    → lay.show_tactics ≡ false
    → lay.show_processes ≡ false
    → occurrences 10 (render_context d w lay) ≡ 0
unfolding render_context occurrences
bare_context d w lay tactics processes =
    rw (tactics, processes) (omega (arith, concat_bound ("" ∷ "" ∷ "" ∷ "" ∷ []) 0 (omega arith)))

module _ (scaled : ℕ → ℕ → ℕ → ℕ) (clock : ℤ → String) (one : (time : ℤ) → OneLine (clock time))
    (t : Terminal) where
  -- A frame with nothing left to give has at most 23 line ends.
  bare_frame :
      (now : Moment) (lay : Layout)
      → IsUsable now.dashboard
      → left_to_shed lay ≡ 0
      → HasRows lay
      → occurrences 10 (render_frame scaled clock t now lay) ≤ 23
  unfolding render_frame occurrences
  bare_frame now lay h bare rows =
      let d = now.dashboard in
      let m = now.metrics in
      let w = frame_width t d.opts.width in
      concat_bound _ 23 (
        omega (
          arith,
          render_header-bound scaled d m now.uptime w h.run,
          render_severity_and_rules-bound scaled d w 5 h.run (omega arith) h.rules,
          bare_context d w lay (ground (arith, bare)) (ground (arith, bare)),
          render_storyline-bound d w m lay.story_rows h.run h.chain (omega (arith, rows.1)),
          render_recent-bound clock one d w lay.recent_rows h.feed (omega (arith, rows.0)),
          render_footer-bound d w m h.run,
        ))

  -- Let no text that the dashboard shows hold a line end, at whatever moment, and let at most five
  -- rules be listed. On a terminal of at least 24 rows, Render returns a frame that has at most as
  -- many line ends as there are rows, less one.
  pub render_usable :
      (seen : ℕ → Moment) (height : ℕ)
      → ((k : ℕ) → IsUsable (seen k).dashboard)
      → min_usable_height ≤ (if height == 0 then terminal_height t else height)
      → (frame : String) × (render scaled clock t seen height ≡ some frame)
        × (occurrences 10 frame ≤ (if height == 0 then terminal_height t else height) - 1)
  render_usable seen height usable tall =
      let (n, few, same, before, ends) = render-Returns scaled clock t seen height in
      let frame = render_frame scaled clock t (seen (0 + n)) (layout_after n full_layout) in
      (
        frame,
        same,
        elim ends [
          | inl fits ↦ fits
          | inr bare ↦
              let (nothing, rows) =
                layout_after-bare n full_layout bare (omega arith, omega arith) in
              omega (arith, bare_frame (seen (0 + n)) _ (usable (0 + n)) nothing rows, tall)
        ],
      )
