-- ===== src/Output/Dashboard/Frame/Fit.antt =====
-- How Render's loop ends, and which frames fit.
use krnl_sentry.Base.{
  ℕ, ℤ, zero, suc, ◌+◌, ◌-◌, ◌≤◌, ◌<◌, ltb, leb, String, true, false, Option, none, some,
  if◌then◌else◌, ◌==◌, nat_eq, ◌≡◌, refl, sym, ap, ◌∙◌, arith, ◌⊎◌, inl, inr, Bool-cases,
}
use krnl_sentry.Output.Terminal.{occurrences}
use krnl_sentry.Output.Dashboard.Widgets.{Terminal, terminal_height}
use krnl_sentry.Output.Dashboard.Frame.{
  Layout, full_layout, shed, Moment, render_frame, render_loop, render_rounds, render,
  min_recent_rows, min_story_rows,
}

-- What a layout can still give.
abbrev pub left_to_shed : Layout → ℕ
left_to_shed lay =
    (lay.recent_rows - min_recent_rows)
    + (lay.story_rows - min_story_rows)
    + (if lay.show_processes then 1 else 0)
    + (if lay.show_tactics then 1 else 0)

pub shed-left :
    (lay : Layout)
    → ((shed lay ≡ none) × (left_to_shed lay ≡ 0))
      ⊎ ((less : Layout) × (shed lay ≡ some less) × (suc (left_to_shed less) ≡ left_to_shed lay))
unfolding shed
shed-left lay = elim (Bool-cases (ltb min_recent_rows lay.recent_rows)) [
  | inl feed ↦ inr (record lay { recent_rows = lay.recent_rows - 1 }, rw feed refl, ground arith)
  | inr no_feed ↦ elim (Bool-cases (ltb min_story_rows lay.story_rows)) [
    | inl story ↦
        inr (record lay { story_rows = lay.story_rows - 1 }, rw (no_feed, story) refl, ground arith)
    | inr no_story ↦ elim (Bool-cases lay.show_processes) [
      | inl shown ↦
          inr (
            record lay { show_processes = false },
            rw (no_feed, no_story, shown) refl,
            ground arith,
          )
      | inr hidden ↦ elim (Bool-cases lay.show_tactics) [
        | inl tactics ↦ inr (
          record lay { show_tactics = false },
          rw (no_feed, no_story, hidden, tactics) refl,
          ground arith,
        )
        | inr bare ↦ inl (rw (no_feed, no_story, hidden, bare) refl, ground arith)
      ]
    ]
  ]
]

-- The layout after some steps of the switch.
unfoldable pub layout_after : ℕ → Layout → Layout
layout_after zero lay = lay
layout_after (suc n) lay = elim (shed lay) [ none ↦ lay | some less ↦ layout_after n less ]

layout_after-some :
    (n : ℕ) (lay less : Layout)
    → shed lay ≡ some less
    → layout_after (suc n) lay ≡ layout_after n less
unfolding layout_after
layout_after-some n lay less e = rw (e, layout_after) refl

module _ (scaled : ℕ → ℕ → ℕ → ℕ) (clock : ℤ → String) (t : Terminal) where
  -- The n-th frame that Render tries from a layout, its first frame being the k-th.
  abbrev pub tried : (ℕ → Moment) → ℕ → Layout → ℕ → String
  tried seen k lay n = render_frame scaled clock t (seen (k + n)) (layout_after n lay)

  -- The loop returns the first frame that fits, or the one with nothing left to give.
  abbrev pub Returns : Option String → (ℕ → Moment) → ℕ → ℕ → Layout → Type 0
  Returns result seen budget k lay =
      (n : ℕ) × (n ≤ left_to_shed lay)
      × (result ≡ some (tried seen k lay n))
      × ((j : ℕ) → j < n → budget < occurrences 10 (tried seen k lay j))
      × ((occurrences 10 (tried seen k lay n) ≤ budget) ⊎ (n ≡ left_to_shed lay))

  tried-some :
      (seen : ℕ → Moment) (k n : ℕ) (lay less : Layout)
      → shed lay ≡ some less
      → tried seen k lay (suc n) ≡ tried seen (k + 1) less n
  tried-some seen k n lay less e =
      let index : k + suc n ≡ k + 1 + n = omega arith in
      ap (λ i. render_frame scaled clock t (seen i) (layout_after (suc n) lay)) index
      ∙ ap (λ l. render_frame scaled clock t (seen (k + 1 + n)) l) (layout_after-some n lay less e)

  tried_first :
      (seen : ℕ → Moment) (k : ℕ) (lay : Layout)
      → tried seen k lay 0 ≡ render_frame scaled clock t (seen k) lay
  unfolding layout_after
  tried_first seen k lay =
      let index : k + 0 ≡ k = omega arith in
      ap (λ i. render_frame scaled clock t (seen i) lay) index

  loop_fits :
      (fuel : ℕ) (seen : ℕ → Moment) (budget : ℕ) (lay : Layout) (k : ℕ)
      → leb (occurrences 10 (render_frame scaled clock t (seen k) lay)) budget ≡ true
      → render_loop scaled clock t (suc fuel) seen budget lay k
        ≡ some (render_frame scaled clock t (seen k) lay)
  unfolding render_loop
  loop_fits fuel seen budget lay k h = rw h refl

  loop_bare :
      (fuel : ℕ) (seen : ℕ → Moment) (budget : ℕ) (lay : Layout) (k : ℕ)
      → leb (occurrences 10 (render_frame scaled clock t (seen k) lay)) budget ≡ false
      → shed lay ≡ none
      → render_loop scaled clock t (suc fuel) seen budget lay k
        ≡ some (render_frame scaled clock t (seen k) lay)
  unfolding render_loop
  loop_bare fuel seen budget lay k h e = rw (h, e) refl

  loop_sheds :
      (fuel : ℕ) (seen : ℕ → Moment) (budget : ℕ) (lay less : Layout) (k : ℕ)
      → leb (occurrences 10 (render_frame scaled clock t (seen k) lay)) budget ≡ false
      → shed lay ≡ some less
      → render_loop scaled clock t (suc fuel) seen budget lay k
        ≡ render_loop scaled clock t fuel seen budget less (k + 1)
  unfolding render_loop
  loop_sheds fuel seen budget lay less k h e = rw (h, e) refl

  too_tall :
      (seen : ℕ → Moment) (budget k : ℕ) (lay less : Layout)
      → shed lay ≡ some less
      → budget < occurrences 10 (tried seen k lay 0)
      → (n : ℕ) → ((j : ℕ) → j < n → budget < occurrences 10 (tried seen (k + 1) less j))
      → (j : ℕ) → j < suc n
      → budget < occurrences 10 (tried seen k lay j)
  too_tall seen budget k lay less step first n later zero h = first
  too_tall seen budget k lay less step first n later (suc j) h =
      omega (arith, later j (omega arith), ap (occurrences 10) (tried-some seen k j lay less step))

  render_loop-Returns :
      (fuel : ℕ) (seen : ℕ → Moment) (budget : ℕ) (lay : Layout) (k : ℕ)
      → left_to_shed lay < fuel
      → Returns (render_loop scaled clock t fuel seen budget lay k) seen budget k lay
  render_loop-Returns zero seen budget lay k h = absurd (omega arith)
  render_loop-Returns (suc fuel) seen budget lay k h =
      let first = tried_first seen k lay in
      elim (Bool-cases (leb (occurrences 10 (render_frame scaled clock t (seen k) lay)) budget)) [
        | inl fits ↦ (
          0,
          omega arith,
          loop_fits fuel seen budget lay k fits ∙ sym (ap some first),
          λ j none_before. absurd (omega arith),
          inl (ground (arith, ap (occurrences 10) first)),
        )
        | inr long ↦ elim (shed-left lay) [
          | inl (stop, nothing) ↦ (
            0,
            omega arith,
            loop_bare fuel seen budget lay k long stop ∙ sym (ap some first),
            λ j none_before. absurd (omega arith),
            inr (omega (arith, nothing)),
          )
          | inr (less, step, one) ↦
              let (n, few, same, before, ends) =
                render_loop-Returns fuel seen budget less (k + 1) (omega arith) in
              let shift = λ (i : ℕ). ap (occurrences 10) (tried-some seen k i lay less step) in
              (
                suc n,
                omega arith,
                loop_sheds fuel seen budget lay less k long step
                    ∙ same
                    ∙ sym (ap some (tried-some seen k n lay less step)),
                too_tall seen budget k lay less step (ground (arith, ap (occurrences 10) first)) n
                    before,
                elim ends [
                  | inl fits ↦ inl (omega (arith, shift n))
                  | inr bare ↦ inr (omega arith)
                ],
              )
        ]
      ]

  -- For every terminal, height, and dashboard as each call of render finds it: Render returns. Its
  -- frame is the n-th that it tries, for an n of at most 17; the frames before it all have more line
  -- ends than the height less one; and it has no more than that itself, or n is 17: then the feed
  -- has 3 rows, the timeline 2, and the panels of tactics and processes are gone.
  pub render-Returns :
      (seen : ℕ → Moment) (height : ℕ)
      → Returns
          (render scaled clock t seen height)
          seen
          ((if height == 0 then terminal_height t else height) - 1)
          0
          full_layout
  unfolding render
  render-Returns seen height = render_loop-Returns render_rounds seen _ full_layout 0 (omega arith)
