-- ===== src/Detect/Storyline/Story/Tactical.antt =====
-- The tactics of a story: each once, none forgotten, and whether there is a new one.
use krnl_sentry.Base.{
  ◌≤◌, ◌<◌, true, false, ◌||◌, List, [], ◌∷◌, ◌++◌, ◌≡◌, refl, ap, arith, ◌↔◌, inl, inr, length,
  length-append, Bool-cases,
}
use krnl_sentry.Detect.Storyline.Tactics.{Tactic, tactic_eq, tactic_beq, tactic_beq_iff}
use krnl_sentry.Detect.Storyline.Story.{has_tactic, add_tactics}

-- No tactic stands twice.
abbrev pub IsDistinct : List Tactic → Type 0
IsDistinct [] = Unit
IsDistinct (t ∷ ts) = (has_tactic t ts ≡ false) × IsDistinct ts

has_tactic-append :
    (t : Tactic) (xs ys : List Tactic)
    → has_tactic t (xs ++ ys) ≡ (has_tactic t xs || has_tactic t ys)
unfolding has_tactic
has_tactic-append t [] ys = refl
has_tactic-append t (x ∷ xs) ys = ground (arith, has_tactic-append t xs ys)

IsDistinct-append :
    (t : Tactic) (xs : List Tactic)
    → IsDistinct xs
    → has_tactic t xs ≡ false
    → IsDistinct (xs ++ t ∷ [])
unfolding has_tactic
IsDistinct-append t [] d new = (refl, tt)
IsDistinct-append t (x ∷ xs) d new =
    let apart = has_tactic-append x xs (t ∷ []) in
    let ih = IsDistinct-append t xs d.1 (ground (arith, new)) in
    let eq = tactic_beq_iff x t in
    let qe = tactic_beq_iff t x in ground (arith, apart, ih, eq, qe, new, d.0)

-- The tactics of a story stay distinct.
pub add_tactics-IsDistinct :
    (have ts : List Tactic) → IsDistinct have → IsDistinct (add_tactics have ts).0
unfolding add_tactics
add_tactics-IsDistinct have [] d = d
add_tactics-IsDistinct have (t ∷ ts) d = elim (Bool-cases (has_tactic t have)) [
  | inl old ↦ rw old (add_tactics-IsDistinct have ts d)
  | inr new ↦ rw new (add_tactics-IsDistinct (have ++ t ∷ []) ts (IsDistinct-append t have d new))
]

has_tactic_same :
    (x t : Tactic) (have : List Tactic)
    → tactic_beq x t ≡ true
    → has_tactic x have ≡ has_tactic t have
has_tactic_same x t have same = ap (λ z. has_tactic z have) ((tactic_beq_iff x t).0 same)

-- A tactic is among those of the story afterwards exactly if it was there or came.
pub has_tactic-add_tactics :
    (t : Tactic) (have ts : List Tactic)
    → has_tactic t (add_tactics have ts).0 ≡ (has_tactic t have || has_tactic t ts)
unfolding add_tactics has_tactic
has_tactic-add_tactics t have [] = ground arith
has_tactic-add_tactics t have (x ∷ ts) =
    let old = has_tactic-add_tactics t have ts in
    let new = has_tactic-add_tactics t (have ++ x ∷ []) ts in
    ground (arith, old, new, has_tactic-append t have (x ∷ []), has_tactic_same x t have)

length-add_tactics-le : (have ts : List Tactic) → length have ≤ length (add_tactics have ts).0
unfolding add_tactics
length-add_tactics-le have [] = omega arith
length-add_tactics-le have (t ∷ ts) =
    let old = length-add_tactics-le have ts in
    let new = length-add_tactics-le (have ++ t ∷ []) ts in
    ground (arith, old, new, length-append have (t ∷ []))

-- The flag says whether the story has more tactics than before.
pub add_tactics-length :
    (have ts : List Tactic)
    → ((add_tactics have ts).1 ≡ true) ↔ (length have < length (add_tactics have ts).0)
unfolding add_tactics
add_tactics-length have [] = (λ h. cc, λ h. ground arith)
add_tactics-length have (t ∷ ts) =
    let old = add_tactics-length have ts in
    let more = length-add_tactics-le (have ++ t ∷ []) ts in
    let one = length-append have (t ∷ []) in
    (λ h. ground (arith, old, more, one), λ h. ground (arith, old, more, one))
