-- ===== src/Detect/Tracker/Window.antt =====
-- ProcessHistory.Within against its meaning: the entries that are recent.
use krnl_sentry.Base.{
  ℕ, zero, suc, ◌≤◌, Bool, List, [], ◌∷◌, some, ◌≡◌, refl, arith, leb, if◌then◌else◌, Bool-cases,
  inl, inr, length, drop, keep, All, ap, ◌∙◌, length-drop, leb→le,
}
use krnl_sentry.Detect.Tracker.{HistoryEntry, ProcessHistory, cutoff, walk_back, within}

abbrev pub AtLeast : ℕ → List HistoryEntry → Type 0
AtLeast t = All (λ e. t ≤ e.timestamp)

-- The timestamps do not fall along a history.
abbrev pub IsOrdered : List HistoryEntry → Type 0
IsOrdered [] = Unit
IsOrdered (e ∷ es) = AtLeast e.timestamp es × IsOrdered es

abbrev recent : ℕ → HistoryEntry → Bool
recent cut e = leb cut e.timestamp

-- From an entry that is recent on, all are.
keep-all : (cut : ℕ) (es : List HistoryEntry) → AtLeast cut es → keep (recent cut) es ≡ es
keep-all cut [] h = refl
keep-all cut (e ∷ es) h = ground (arith, keep-all cut es h.1)

AtLeast-trans : (s t : ℕ) (es : List HistoryEntry) → s ≤ t → AtLeast t es → AtLeast s es
AtLeast-trans s t [] h a = tt
AtLeast-trans s t (e ∷ es) h a = (omega arith, AtLeast-trans s t es h a.1)

-- The walk over a list with one more entry in front, from the walk without it.
abbrev lead : Bool → ℕ → ℕ
lead front zero = if front then 0 else 1
lead front (suc k) = suc (suc k)

walk_back-cons :
    (cut : ℕ) (e : HistoryEntry) (es : List HistoryEntry) (n : ℕ)
    → walk_back (e ∷ es) cut (suc n) ≡ lead (recent cut e) (walk_back es cut n)
unfolding walk_back
walk_back-cons cut e es zero = refl
walk_back-cons cut e es (suc n) = ground (arith, walk_back-cons cut e es n)

walk_back-le : (es : List HistoryEntry) (cut n : ℕ) → walk_back es cut n ≤ n
unfolding walk_back
walk_back-le es cut zero = omega arith
walk_back-le es cut (suc n) = ground (arith, walk_back-le es cut n)

-- A list that keeps its length has dropped nothing.
drop_some : (k : ℕ) (es : List HistoryEntry) → suc k ≤ length es → drop (suc k) es ≡ es → ⊥
drop_some k es h e = omega (arith, ap length e, length-drop (suc k) es)

drop-lead :
    (cut : ℕ) (e : HistoryEntry) (es : List HistoryEntry) (w : ℕ)
    → AtLeast e.timestamp es
    → w ≤ length es
    → drop w es ≡ keep (recent cut) es
    → drop (lead (recent cut e) w) (e ∷ es) ≡ keep (recent cut) (e ∷ es)
drop-lead cut e es zero later le ih = ground arith
drop-lead cut e es (suc k) later le ih = elim (Bool-cases (recent cut e)) [
  | inl new ↦ absurd (
      drop_some k es le (
        ih ∙ keep-all cut es (AtLeast-trans cut e.timestamp es (leb→le cut e.timestamp new) later)))
  | inr old ↦ rw old ih
]

drop-walk_back :
    (cut : ℕ) (es : List HistoryEntry)
    → IsOrdered es
    → drop (walk_back es cut (length es)) es ≡ keep (recent cut) es
unfolding walk_back
drop-walk_back cut [] o = refl
drop-walk_back cut (e ∷ es) o = rw (walk_back-cons cut e es (length es)) (
    drop-lead cut e es (walk_back es cut (length es)) o.0 (walk_back-le es cut (length es))
      (drop-walk_back cut es o.1))

-- In a history whose timestamps do not fall, Within returns exactly the entries that are not
-- older than the window, in their order.
pub within-keep :
    (h : ProcessHistory) (now window : ℕ)
    → IsOrdered h.entries
    → within (some h) now window ≡ keep (λ e. leb (cutoff now window) e.timestamp) h.entries
unfolding within
within-keep h now window o = drop-walk_back (cutoff now window) h.entries o
