-- ===== src/Cmd/PidFilter.antt =====
-- cmd/krnlsentry/pidfilter.go: the filter that restricts monitoring to one process and its
-- descendants. The PIDs of /proc with their parents are a parameter, in the order in which the map
-- is walked; Cmd/ProcStat.antt has how the code reads them.
pub mod Descent
pub mod Following
use krnl_sentry.Base.{
  ℕ, zero, suc, ◌+◌, Bool, true, false, List, [], ◌∷◌, if◌then◌else◌, nat_eq, length, is_set,
}
use krnl_sentry.Dict.{lookup, insert}
use krnl_sentry.Events.Event.{Event}

-- The set of processes is a map to true.
pub record PidFilter : Type 0 where
  pub root : ℕ
  pub tracked : List (ℕ × Bool)

abbrev pub is_tracked : ℕ → List (ℕ × Bool) → Bool
is_tracked pid tracked = is_set (lookup pid tracked)

-- Allow.
unfoldable pub allow : Event → PidFilter → PidFilter × Bool
allow ev f =
    if is_tracked ev.pid f.tracked
    then (f, true)
    else if is_tracked ev.ppid f.tracked
    then (record f { tracked = insert ev.pid true f.tracked }, true)
    else (f, false)

-- Len.
unfoldable pub filter_len : PidFilter → ℕ
filter_len f = length f.tracked

-- One sweep over the parents: the set, and whether it grew.
unfoldable pub sweep : List (ℕ × ℕ) → List (ℕ × Bool) → List (ℕ × Bool) × Bool
sweep [] tracked = (tracked, false)
sweep ((pid, ppid) ∷ rest) tracked =
    let same = sweep rest tracked in
    let grown = sweep rest (insert pid true tracked) in
    if is_tracked pid tracked
    then same
    else if is_tracked ppid tracked
    then (grown.0, true)
    else same

-- The loop of sweeps, for a number of rounds.
unfoldable pub sweep_all : ℕ → List (ℕ × ℕ) → List (ℕ × Bool) → List (ℕ × Bool)
sweep_all zero parents tracked = tracked
sweep_all (suc rounds) parents tracked =
    let r = sweep parents tracked in
    let again = sweep_all rounds parents r.0 in if r.1 then again else r.0

-- newPIDFilter with seedFromProc: each round but the last adds a process, so that one round more
-- than there are processes is enough.
unfoldable pub new_pid_filter : ℕ → List (ℕ × ℕ) → PidFilter
new_pid_filter pid parents = record {
  root = pid;
  tracked = sweep_all (length parents + 1) parents ((pid, true) ∷ []);
}
