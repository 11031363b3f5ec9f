-- ===== src/Detect/Storyline/Story/Steps.antt =====
-- The steps of a story: how many it keeps, and which it gives up for a new one.
use krnl_sentry.Base.{
  suc, ◌≤◌, ◌<◌, List, [], ◌∷◌, ◌++◌, Option, none, some, ◌≡◌, refl, ap, arith, inl, inr, length,
  length-append, keep, Option-cases, subst, ◌-◌, Bool-cases,
}
use krnl_sentry.Detect.Alert.{StoryStep}
use krnl_sentry.Detect.Storyline.Story.{max_story_steps, evict, drop_first, add_step}

-- The pivotal steps, in order.
abbrev pub pivotal_steps : List StoryStep → List StoryStep
pivotal_steps steps = keep (λ st. StoryStep.pivotal st) steps

pivotal_steps-append :
    (xs ys : List StoryStep) → pivotal_steps (xs ++ ys) ≡ pivotal_steps xs ++ pivotal_steps ys
pivotal_steps-append [] ys = refl
pivotal_steps-append (x ∷ xs) ys =
    let ih = pivotal_steps-append xs ys in
    elim (Bool-cases x.pivotal) [ inl y ↦ ground (arith, ih, y) | inr n ↦ ground (arith, ih, n) ]

-- What evict does: a step that is not pivotal goes, or there is none.
Evicted : List StoryStep → Option (List StoryStep) → Type 0
Evicted steps none = pivotal_steps steps ≡ steps
Evicted steps (some kept) =
    (suc (length kept) ≡ length steps) × (pivotal_steps kept ≡ pivotal_steps steps)

evict-Evicted : (steps : List StoryStep) → Evicted steps (evict steps)
unfolding evict Evicted
evict-Evicted [] = refl
evict-Evicted (st ∷ rest) =
    let ih = evict-Evicted rest in
    elim (Bool-cases st.pivotal) [
      | inr plain ↦ rw plain (refl, refl)
      | inl pivotal ↦ elim (Option-cases (evict rest)) [
        | inl none_ ↦ ground (arith, pivotal, none_, subst (Evicted rest) none_ ih)
        | inr (kept, some_) ↦ ground (arith, pivotal, some_, subst (Evicted rest) some_ ih)
      ]
    ]

length-drop_first : (steps : List StoryStep) → length (drop_first steps) ≡ length steps - 1
length-drop_first [] = omega arith
length-drop_first (st ∷ rest) = omega arith

-- A full story stays full, and one with room has at most one more step.
pub length-add_step :
    (st : StoryStep) (steps : List StoryStep)
    → length steps ≤ max_story_steps
    → length (add_step st steps) ≤ max_story_steps
unfolding add_step Evicted
length-add_step st steps fits = elim (Option-cases (evict steps)) [
  | inl none_ ↦ ground (
    arith,
    none_,
    length-append steps (st ∷ []),
    length-append (drop_first steps) (st ∷ []),
    length-drop_first steps,
  )
  | inr (kept, some_) ↦
      let evicted = subst (Evicted steps) some_ (evict-Evicted steps) in
      ground (arith, some_, evicted.0, length-append steps (st ∷ []), length-append kept (st ∷ []))
]

-- While fewer than 24 steps of a story are pivotal, no pivotal step is given up for a new step: the
-- pivotal steps are those from before, then the new one if it is pivotal.
pub add_step_pivotal :
    (st : StoryStep) (steps : List StoryStep)
    → length (pivotal_steps steps) < max_story_steps
    → pivotal_steps (add_step st steps) ≡ pivotal_steps (steps ++ st ∷ [])
unfolding add_step Evicted
add_step_pivotal st steps room = elim (Option-cases (evict steps)) [
  | inl none_ ↦
      let all = subst (Evicted steps) none_ (evict-Evicted steps) in
      ground (arith, ap length all, none_)
  | inr (kept, some_) ↦
      let evicted = subst (Evicted steps) some_ (evict-Evicted steps) in
      ground (
        arith,
        some_,
        evicted.1,
        pivotal_steps-append steps (st ∷ []),
        pivotal_steps-append kept (st ∷ []),
      )
]
