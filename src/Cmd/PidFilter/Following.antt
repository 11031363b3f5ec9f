-- ===== src/Cmd/PidFilter/Following.antt =====
-- Enough sweeps are made, and what the filter then follows.
use krnl_sentry.Base.{
  ℕ, zero, suc, ◌+◌, ◌≤◌, ◌<◌, Bool, true, false, ◌||◌, List, [], ◌∷◌, some, ◌≡◌, ◌≢◌, ◌↔◌, refl,
  sym, subst, ◌∙◌, arith, ◌==◌, nat_eq, nat_beq_iff, length, Bool-cases, inl, inr, All,
}
use krnl_sentry.Dict.{lookup, insert, IsMap}
use krnl_sentry.Dict.Laws.{lookup-insert}
use krnl_sentry.Events.Event.{Event}
use krnl_sentry.Cmd.PidFilter.{PidFilter, is_tracked, allow, sweep, sweep_all, new_pid_filter}
use krnl_sentry.Cmd.PidFilter.Descent.{
  Descends, itself, child, All-IsEntry, IsWithin, sweep_all-IsWithin, missing, Extends,
  missing-Extends, insert-Extends, sweep-Extends,
}

sweep-fewer :
    (some_ : List (ℕ × ℕ)) (tracked : List (ℕ × Bool))
    → (sweep some_ tracked).1 ≡ true
    → missing some_ (sweep some_ tracked).0 < missing some_ tracked
unfolding sweep missing Extends
sweep-fewer [] tracked grew = cc
sweep-fewer ((pid, ppid) ∷ rest) tracked grew =
    let wider = insert-Extends pid tracked in
    let same_kept = sweep-Extends rest tracked pid in
    let grown_kept = sweep-Extends rest (insert pid true tracked) pid in
    let here : is_tracked pid (insert pid true tracked) ≡ true =
      ground (arith, lookup-insert pid pid true tracked, nat_beq_iff pid pid) in
    let grown_le =
      missing-Extends rest tracked (sweep rest (insert pid true tracked)).0
        (λ other h. sweep-Extends rest (insert pid true tracked) other (wider other h)) in
    let ih = sweep-fewer rest tracked in
    ground (arith, same_kept, grown_kept, here, grown_le, ih, grew)

-- A set that holds a process if it holds its parent.
abbrev IsClosed : List (ℕ × ℕ) → List (ℕ × Bool) → Type 0
IsClosed some_ tracked =
    All (λ p. is_tracked p.1 tracked ≡ true → is_tracked p.0 tracked ≡ true) some_

sweep-IsClosed :
    (some_ : List (ℕ × ℕ)) (tracked : List (ℕ × Bool))
    → (sweep some_ tracked).1 ≡ false
    → ((sweep some_ tracked).0 ≡ tracked) × IsClosed some_ tracked
unfolding sweep
sweep-IsClosed [] tracked still = (refl, tt)
sweep-IsClosed ((pid, ppid) ∷ rest) tracked still = elim (Bool-cases (is_tracked pid tracked)) [
  | inl old ↦
      let (same, closed) = sweep-IsClosed rest tracked (ground (arith, still, old)) in
      (rw old same, (λ h. old, closed))
  | inr new ↦ elim (Bool-cases (is_tracked ppid tracked)) [
    | inl on ↦ absurd (ground (arith, still, new, on))
    | inr off ↦
        let (same, closed) = sweep-IsClosed rest tracked (ground (arith, still, new, off)) in
        (rw (new, off) same, (λ h. absurd (ground (arith, h, off)), closed))
  ]
]

sweep_all-grew :
    (rounds : ℕ) (parents : List (ℕ × ℕ)) (tracked : List (ℕ × Bool))
    → (sweep parents tracked).1 ≡ true
    → sweep_all (suc rounds) parents tracked ≡ sweep_all rounds parents (sweep parents tracked).0
unfolding sweep_all
sweep_all-grew rounds parents tracked grew = ground (arith, grew)

sweep_all-still :
    (rounds : ℕ) (parents : List (ℕ × ℕ)) (tracked : List (ℕ × Bool))
    → (sweep parents tracked).1 ≡ false
    → sweep_all (suc rounds) parents tracked ≡ (sweep parents tracked).0
unfolding sweep_all
sweep_all-still rounds parents tracked still = ground (arith, still)

sweep_all-IsClosed :
    (rounds : ℕ) (parents : List (ℕ × ℕ)) (tracked : List (ℕ × Bool))
    → missing parents tracked < rounds
    → IsClosed parents (sweep_all rounds parents tracked)
unfolding sweep_all
sweep_all-IsClosed zero parents tracked le = absurd (omega (arith, le))
sweep_all-IsClosed (suc rounds) parents tracked le = elim (Bool-cases (sweep parents tracked).1) [
  | inl grew ↦
      let fewer = sweep-fewer parents tracked grew in
      subst (IsClosed parents) (sym (sweep_all-grew rounds parents tracked grew))
        (sweep_all-IsClosed rounds parents (sweep parents tracked).0 (omega (arith, le, fewer)))
  | inr still ↦
      let (same, closed) = sweep-IsClosed parents tracked still in
      subst (IsClosed parents) (sym (sweep_all-still rounds parents tracked still ∙ same)) closed
]

sweep_all-Extends :
    (rounds : ℕ) (parents : List (ℕ × ℕ)) (tracked : List (ℕ × Bool))
    → Extends tracked (sweep_all rounds parents tracked)
unfolding sweep_all Extends
sweep_all-Extends zero parents tracked other h = h
sweep_all-Extends (suc rounds) parents tracked other h =
    let once = sweep-Extends parents tracked other h in
    let more = sweep_all-Extends rounds parents (sweep parents tracked).0 other once in
    ground (arith, once, more)

length-missing :
    (some_ : List (ℕ × ℕ)) (tracked : List (ℕ × Bool)) → missing some_ tracked ≤ length some_
unfolding missing
length-missing [] tracked = omega arith
length-missing ((pid, ppid) ∷ rest) tracked = ground (arith, length-missing rest tracked)

IsClosed-lookup :
    (some_ : List (ℕ × ℕ)) (tracked : List (ℕ × Bool)) (pid ppid : ℕ)
    → IsClosed some_ tracked
    → lookup pid some_ ≡ some ppid
    → is_tracked ppid tracked ≡ true
    → is_tracked pid tracked ≡ true
unfolding lookup
IsClosed-lookup [] tracked pid ppid closed known on = cc
IsClosed-lookup ((first, parent) ∷ rest) tracked pid ppid closed known on =
    elim (Bool-cases (first == pid)) [
      | inl same ↦
          let is_pid = (nat_beq_iff first pid).0 same in
          let is_ppid : parent ≡ ppid = ground (arith, known, same) in
          subst (λ k. is_tracked k tracked ≡ true) is_pid
            (closed.0 (subst (λ k. is_tracked k tracked ≡ true) (sym is_ppid) on))
      | inr differs ↦
          IsClosed-lookup rest tracked pid ppid closed.1 (ground (arith, known, differs)) on
    ]

Descends-tracked :
    (root : ℕ) (parents : List (ℕ × ℕ)) (tracked : List (ℕ × Bool))
    → IsClosed parents tracked
    → is_tracked root tracked ≡ true
    → (pid : ℕ) → Descends root parents pid
    → is_tracked pid tracked ≡ true
Descends-tracked root parents tracked closed on pid itself = on
Descends-tracked root parents tracked closed on pid (child _ ppid known above) =
    IsClosed-lookup parents tracked pid ppid closed known
      (Descends-tracked root parents tracked closed on ppid above)

start-tracked : (root : ℕ) → is_tracked root ((root, true) ∷ []) ≡ true
unfolding lookup
start-tracked root = ground (arith, nat_beq_iff root root)

start-IsWithin : (root : ℕ) (parents : List (ℕ × ℕ)) → IsWithin root parents ((root, true) ∷ [])
unfolding lookup IsWithin
start-IsWithin root parents pid h =
    subst (Descends root parents) ((nat_beq_iff root pid).0 (ground (arith, h))) itself

new_pid_filter-IsWithin :
    (root : ℕ) (parents : List (ℕ × ℕ))
    → IsMap parents
    → IsWithin root parents (new_pid_filter root parents).tracked
unfolding new_pid_filter
new_pid_filter-IsWithin root parents m =
    sweep_all-IsWithin (length parents + 1) root parents ((root, true) ∷ []) (All-IsEntry parents m)
      (start-IsWithin root parents)

new_pid_filter-IsClosed :
    (root : ℕ) (parents : List (ℕ × ℕ))
    → IsClosed parents (new_pid_filter root parents).tracked
      × (is_tracked root (new_pid_filter root parents).tracked ≡ true)
unfolding new_pid_filter Extends
new_pid_filter-IsClosed root parents =
    let start : List (ℕ × Bool) = (root, true) ∷ [] in
    (
      sweep_all-IsClosed (length parents + 1) parents start
          (omega (arith, length-missing parents start)),
      sweep_all-Extends (length parents + 1) parents start root (start-tracked root),
    )

-- Whatever order the processes are swept in, each listed once, a new filter follows exactly the root
-- and the processes that descend from it.
pub new_pid_filter_iff :
    (root : ℕ) (parents : List (ℕ × ℕ)) (pid : ℕ)
    → IsMap parents
    → (is_tracked pid (new_pid_filter root parents).tracked ≡ true) ↔ Descends root parents pid
unfolding IsWithin
new_pid_filter_iff root parents pid m =
    let (closed, on) = new_pid_filter-IsClosed root parents in
    (
      new_pid_filter-IsWithin root parents m pid,
      Descends-tracked root parents (new_pid_filter root parents).tracked closed on pid,
    )

-- Allow passes exactly the events of a process that is followed or whose parent is, follows that
-- process from then on, and does not change what it says of other processes.
pub allow_iff :
    (ev : Event) (f : PidFilter)
    → (((allow ev f).1 ≡ true)
        ↔ ((is_tracked ev.pid f.tracked || is_tracked ev.ppid f.tracked) ≡ true))
      × (is_tracked ev.pid (allow ev f).0.tracked ≡ (allow ev f).1)
      × ((other : ℕ)
          → other ≢ ev.pid
          → is_tracked other (allow ev f).0.tracked ≡ is_tracked other f.tracked)
unfolding allow
allow_iff ev f =
    let self = lookup-insert ev.pid ev.pid true f.tracked in
    let same = nat_beq_iff ev.pid ev.pid in
    (
      (λ h. ground arith, λ h. ground arith),
      ground (arith, self, same),
      λ other ne.
          ground (arith, lookup-insert ev.pid other true f.tracked, nat_beq_iff ev.pid other, ne),
    )
