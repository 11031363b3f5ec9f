-- ===== src/Cmd/PidFilter/Descent.antt =====
-- The filter follows exactly the descendants of its root.
use krnl_sentry.Base.{
  ℕ, zero, suc, ◌≤◌, Bool, true, List, [], ◌∷◌, none, some, ◌≡◌, ap, subst, arith, if◌then◌else◌,
  ◌==◌, nat_eq, nat_beq_iff, Bool-cases, inl, inr, All, All-mono,
}
use krnl_sentry.Dict.{lookup, insert, IsMap}
use krnl_sentry.Dict.Laws.{lookup-insert}
use krnl_sentry.Cmd.PidFilter.{is_tracked, sweep, sweep_all}

-- The root descends from itself, and a process whose parent descends from the root does.
pub data Descends (root : ℕ) (parents : List (ℕ × ℕ)) : ℕ → Type 0 where
  itself : Descends root parents root
  child :
      (pid ppid : ℕ)
      → lookup pid parents ≡ some ppid
      → Descends root parents ppid
      → Descends root parents pid

-- An entry that a map holds.
abbrev pub IsEntry : List (ℕ × ℕ) → ℕ × ℕ → Type 0
IsEntry parents p = lookup p.0 parents ≡ some p.1

-- An entry of the rest is one of the map, whose keys are distinct.
IsEntry-rest :
    (pid ppid : ℕ) (rest : List (ℕ × ℕ)) (p : ℕ × ℕ)
    → lookup pid rest ≡ none
    → IsEntry rest p
    → IsEntry ((pid, ppid) ∷ rest) p
unfolding lookup
IsEntry-rest pid ppid rest p absent h = elim (Bool-cases (pid == p.0)) [
  | inl same ↦
      absurd (ground (arith, absent, h, ap (λ k. lookup k rest) ((nat_beq_iff pid p.0).0 same)))
  | inr differs ↦ rw differs h
]

pub All-IsEntry : (parents : List (ℕ × ℕ)) → IsMap parents → All (IsEntry parents) parents
unfolding lookup
All-IsEntry [] m = tt
All-IsEntry ((pid, ppid) ∷ rest) m = (
  ground (arith, nat_beq_iff pid pid),
  All-mono (IsEntry rest) (IsEntry ((pid, ppid) ∷ rest)) rest
      (λ p h. IsEntry-rest pid ppid rest p m.0 h) (All-IsEntry rest m.1),
)

-- A set that holds descendants only.
unfoldable pub IsWithin : ℕ → List (ℕ × ℕ) → List (ℕ × Bool) → Type 0
IsWithin root parents tracked =
    (pid : ℕ) → is_tracked pid tracked ≡ true → Descends root parents pid

pub grown-IsWithin :
    (root : ℕ) (parents : List (ℕ × ℕ)) (pid ppid : ℕ) (tracked : List (ℕ × Bool))
    → IsEntry parents (pid, ppid)
    → is_tracked ppid tracked ≡ true
    → IsWithin root parents tracked
    → IsWithin root parents (insert pid true tracked)
unfolding IsWithin
grown-IsWithin root parents pid ppid tracked known on v other h = elim (Bool-cases (pid == other)) [
  | inl same ↦
      subst (Descends root parents) ((nat_beq_iff pid other).0 same)
        (child pid ppid known (v ppid on))
  | inr differs ↦ v other (ground (arith, h, differs, lookup-insert pid other true tracked))
]

sweep-IsWithin :
    (root : ℕ) (parents some_ : List (ℕ × ℕ)) (tracked : List (ℕ × Bool))
    → All (IsEntry parents) some_
    → IsWithin root parents tracked
    → IsWithin root parents (sweep some_ tracked).0
unfolding sweep IsWithin
sweep-IsWithin root parents [] tracked all v = v
sweep-IsWithin root parents ((pid, ppid) ∷ rest) tracked all v =
    elim (Bool-cases (is_tracked pid tracked)) [
      | inl old ↦ rw (old, IsWithin) (sweep-IsWithin root parents rest tracked all.1 v)
      | inr new ↦ elim (Bool-cases (is_tracked ppid tracked)) [
        | inr off ↦ rw (new, off, IsWithin) (sweep-IsWithin root parents rest tracked all.1 v)
        | inl on ↦
            rw (new, on, IsWithin)
              (sweep-IsWithin root parents rest (insert pid true tracked) all.1
                (grown-IsWithin root parents pid ppid tracked all.0 on v))
      ]
    ]

pub sweep_all-IsWithin :
    (rounds root : ℕ) (parents : List (ℕ × ℕ)) (tracked : List (ℕ × Bool))
    → All (IsEntry parents) parents
    → IsWithin root parents tracked
    → IsWithin root parents (sweep_all rounds parents tracked)
unfolding sweep_all
sweep_all-IsWithin zero root parents tracked all v = v
sweep_all-IsWithin (suc rounds) root parents tracked all v =
    let once = sweep-IsWithin root parents parents tracked all v in
    elim (Bool-cases (sweep parents tracked).1) [
      | inr done ↦ rw done once
      | inl grew ↦
          rw grew (sweep_all-IsWithin rounds root parents (sweep parents tracked).0 all once)
    ]

-- How many of some processes are not tracked.
unfoldable pub missing : List (ℕ × ℕ) → List (ℕ × Bool) → ℕ
missing [] tracked = 0
missing ((pid, ppid) ∷ rest) tracked =
    if is_tracked pid tracked then missing rest tracked else suc (missing rest tracked)

-- A set that holds all that another holds.
unfoldable pub Extends : List (ℕ × Bool) → List (ℕ × Bool) → Type 0
Extends old new = (pid : ℕ) → is_tracked pid old ≡ true → is_tracked pid new ≡ true

pub missing-Extends :
    (some_ : List (ℕ × ℕ)) (old new : List (ℕ × Bool))
    → Extends old new
    → missing some_ new ≤ missing some_ old
unfolding missing Extends
missing-Extends [] old new wider = omega arith
missing-Extends ((pid, ppid) ∷ rest) old new wider =
    ground (arith, missing-Extends rest old new wider, wider pid)

pub insert-Extends :
    (pid : ℕ) (tracked : List (ℕ × Bool)) → Extends tracked (insert pid true tracked)
unfolding Extends
insert-Extends pid tracked other h = ground (arith, h, lookup-insert pid other true tracked)

pub sweep-Extends :
    (some_ : List (ℕ × ℕ)) (tracked : List (ℕ × Bool)) → Extends tracked (sweep some_ tracked).0
unfolding sweep Extends
sweep-Extends [] tracked other h = h
sweep-Extends ((pid, ppid) ∷ rest) tracked other h =
    let same = sweep-Extends rest tracked other h in
    let grown =
      sweep-Extends rest (insert pid true tracked) other (insert-Extends pid tracked other h) in
    ground (arith, same, grown)
