-- ===== src/Detect/Tracker/Isolation.antt =====
-- What Record and Forget do to the histories of one process and of the others.
use krnl_sentry.Base.{
  ℕ, ◌+◌, ◌≤◌, ◌<◌, ◌≢◌, true, [], ◌∷◌, none, some, ◌≡◌, arith, length, nat_eq, sub64_of_le,
  u64_mod,
}
use krnl_sentry.Dict.{lookup, IsMap}
use krnl_sentry.Dict.Laws.{
  lookup-insert, lookup-retain, lookup-delete, length-retain-le, lookup-retain-none,
}
use krnl_sentry.Events.Event.{Event}
use krnl_sentry.Detect.Tracker.{
  ProcessHistory, Tracker, is_fresh, sweep, maybe_sweep, trim, file_event, history_entries,
  entry_of, tracked, record_event, forget,
}

-- A process that a lookup does not find is not found after a sweep.
maybe_sweep-none :
    (pid now : ℕ) (t : Tracker)
    → lookup pid t.procs ≡ none
    → lookup pid (maybe_sweep now t).procs ≡ none
unfolding maybe_sweep sweep lookup
maybe_sweep-none pid now t h = ground (arith, lookup-retain-none (is_fresh t.ttl now) pid t.procs h)

-- While there is room, a sweep keeps a process that was seen within the time to live.
maybe_sweep_fresh :
    (pid now : ℕ) (t : Tracker) (h : ProcessHistory)
    → IsMap t.procs
    → length t.procs < t.max_processes
    → now < u64_mod
    → h.last_seen ≤ now
    → now ≤ h.last_seen + t.ttl
    → lookup pid t.procs ≡ some h
    → lookup pid (maybe_sweep now t).procs ≡ some h
unfolding maybe_sweep sweep
maybe_sweep_fresh pid now t h m room word past soon e = ground (
  arith,
  lookup-retain (is_fresh t.ttl now) pid t.procs m,
  length-retain-le (is_fresh t.ttl now) t.procs,
  sub64_of_le now h.last_seen past word,
)

-- Record leaves the history of another process alone, if that was last seen before the event and
-- within the time to live, there is room, and the time of the event is below 2^64.
pub record_event-lookup_ne :
    (ev : Event) (t : Tracker) (pid : ℕ) (h : ProcessHistory)
    → pid ≢ ev.pid
    → IsMap t.procs
    → length t.procs < t.max_processes
    → ev.timestamp < u64_mod
    → h.last_seen ≤ ev.timestamp
    → ev.timestamp ≤ h.last_seen + t.ttl
    → lookup pid t.procs ≡ some h
    → lookup pid (record_event ev t).0.procs ≡ some h
unfolding record_event
record_event-lookup_ne ev t pid h ne m room word past soon e =
    let swept = maybe_sweep ev.timestamp t in
    let filed = file_event swept.depth ev (lookup ev.pid swept.procs) in
    ground (
      arith,
      lookup-insert ev.pid pid filed swept.procs,
      maybe_sweep_fresh pid ev.timestamp t h m room word past soon e,
    )

maybe_sweep-depth : (now : ℕ) (t : Tracker) → (maybe_sweep now t).depth ≡ t.depth
unfolding maybe_sweep sweep
maybe_sweep-depth now t = ground arith

-- A process with no history gets one with the event alone.
file_event-none :
    (depth : ℕ) (ev : Event) → 0 < depth → (file_event depth ev none).entries ≡ entry_of ev ∷ []
unfolding file_event trim history_entries
file_event-none depth ev deep = ground arith

lookup-forget_self :
    (pid : ℕ) (t : Tracker) → IsMap t.procs → lookup pid (forget pid t).procs ≡ none
unfolding forget
lookup-forget_self pid t m = ground (arith, lookup-delete pid pid t.procs m)

lookup-forget_ne :
    (pid j : ℕ) (t : Tracker)
    → IsMap t.procs
    → j ≢ pid
    → lookup j (forget pid t).procs ≡ lookup j t.procs
unfolding forget
lookup-forget_ne pid j t m ne = ground (arith, lookup-delete pid j t.procs m)

record_event_new :
    (ev : Event) (t : Tracker)
    → lookup ev.pid t.procs ≡ none
    → tracked ev.syscall_id ≡ true
    → (record_event ev t).1 ≡ some (file_event t.depth ev none)
unfolding record_event
record_event_new ev t absent watched =
    rw (watched, maybe_sweep-none ev.pid ev.timestamp t absent, maybe_sweep-depth)

-- Once a process is forgotten, the history that Record returns for an event of its number that is
-- worth remembering is that event alone, in a tracker of some depth; forgetting leaves the
-- histories of the others.
pub forget-record_event :
    (ev : Event) (t : Tracker)
    → IsMap t.procs
    → 0 < t.depth
    → tracked ev.syscall_id ≡ true
    → ((h : ProcessHistory) × ((record_event ev (forget ev.pid t)).1 ≡ some h)
        × (h.entries ≡ entry_of ev ∷ []))
      × ((pid : ℕ) → pid ≢ ev.pid → lookup pid (forget ev.pid t).procs ≡ lookup pid t.procs)
unfolding forget
forget-record_event ev t m deep watched = (
  (
    file_event t.depth ev none,
    record_event_new ev (forget ev.pid t) (lookup-forget_self ev.pid t m) watched,
    file_event-none t.depth ev deep,
  ),
  λ pid ne. lookup-forget_ne ev.pid pid t m ne,
)
