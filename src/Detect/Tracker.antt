-- ===== src/Detect/Tracker.antt =====
-- detect/tracker.go: the bounded memory of the syscalls that the sequence rule reads. The mutex
-- is left out: one goroutine drives the tracker.
pub mod Window
pub mod Bounds
pub mod Isolation
use krnl_sentry.Base.{
  ℕ, zero, suc, ◌+◌, ◌-◌, ◌*◌, ◌<◌, ℤ, String, Bool, true, false, ◌&&◌, ◌||◌, not, List, [], ◌∷◌,
  ◌++◌, Option, none, some, ltb, leb, ◌==◌, nat_eq, if◌then◌else◌, length, drop, get_elem?, sub64,
  get_or_else,
}
use krnl_sentry.Dict.{lookup, insert, delete, retain}
use krnl_sentry.Events.Syscall.{
  Syscall, sys_execve, sys_execveat, sys_socket, sys_connect, sys_dup2, sys_dup3,
}
use krnl_sentry.Events.Event.{Event}

abbrev pub default_history_depth : ℕ
default_history_depth = 32

abbrev pub default_ttl : ℕ
default_ttl = 30000000000

abbrev pub default_sweep_interval : ℕ
default_sweep_interval = 5000000000

abbrev pub default_max_processes : ℕ
default_max_processes = 8192

pub record HistoryEntry : Type 0 where
  pub syscall : Syscall
  pub timestamp : ℕ
  pub is_exit : Bool
  pub arg0 : ℤ
  pub arg1 : ℤ
  pub ret : ℤ
  pub dest_ip : String
  pub dest_port : ℕ

pub record ProcessHistory : Type 0 where
  pub pid : ℕ
  pub comm : String
  pub entries : List HistoryEntry
  pub last_seen : ℕ

-- ProcessHistory.Entries, on a pointer that may be nil.
unfoldable pub history_entries : Option ProcessHistory → List HistoryEntry
history_entries none = []
history_entries (some h) = h.entries

-- now - window, or 0.
abbrev pub cutoff : ℕ → ℕ → ℕ
cutoff now window = if ltb window now then now - window else 0

-- Whether the entry at an index is recent. An index out of range stops the walk.
abbrev pub is_recent : ℕ → Option HistoryEntry → Bool
is_recent cut none = false
is_recent cut (some e) = leb cut e.timestamp

-- The loop of Within: back from `start` to the first entry that is too old.
unfoldable pub walk_back : List HistoryEntry → ℕ → ℕ → ℕ
walk_back entries cut zero = zero
walk_back entries cut (suc start) =
    let further = walk_back entries cut start in
    if is_recent cut (get_elem? entries start) then further else suc start

-- ProcessHistory.Within, on a pointer that may be nil. The window is uint64(window).
unfoldable pub within : Option ProcessHistory → ℕ → ℕ → List HistoryEntry
within none now window = []
within (some h) now window =
    drop (walk_back h.entries (cutoff now window) (length h.entries)) h.entries

pub record Tracker : Type 0 where
  pub procs : List (ℕ × ProcessHistory)
  pub depth : ℕ
  pub ttl : ℕ
  pub sweep_every : ℕ
  pub max_processes : ℕ
  pub last_sweep : ℕ

unfoldable pub new_tracker : Tracker
new_tracker = record {
  procs = [];
  depth = default_history_depth;
  ttl = default_ttl;
  sweep_every = default_sweep_interval;
  max_processes = default_max_processes;
  last_sweep = 0;
}

unfoldable pub tracked : Syscall → Bool
tracked sc =
    sc == sys_socket
    || sc == sys_connect
    || sc == sys_dup2
    || sc == sys_dup3
    || sc == sys_execve
    || sc == sys_execveat

-- What a sweep keeps: a process seen within the time to live, or seen after `now`.
abbrev pub is_fresh : ℕ → ℕ → ℕ → ProcessHistory → Bool
is_fresh ttl now pid h = not (ltb h.last_seen now && ltb ttl (sub64 now h.last_seen))

-- The full map is dropped.
abbrev pub drop_full {ℓ} : {V : Type ℓ} → ℕ → List (ℕ × V) → List (ℕ × V)
drop_full limit m = if leb limit (length m) then [] else m

-- The body of a sweep: what is stale goes, and everything if that leaves too many.
unfoldable pub sweep : ℕ → Tracker → Tracker
sweep now t = record t {
  procs = drop_full t.max_processes (retain (is_fresh t.ttl now) t.procs);
  last_sweep = now;
}

-- Whether a sweep is not due: there is room, and the last sweep is not long ago.
unfoldable pub sweep_waits : ℕ → Tracker → Bool
sweep_waits now t =
    not (leb t.max_processes (length t.procs))
    && (not (t.last_sweep == 0) && ltb (sub64 now t.last_sweep) t.sweep_every)

-- Tracker.maybeSweep.
unfoldable pub maybe_sweep : ℕ → Tracker → Tracker
maybe_sweep now t = if sweep_waits now t then t else sweep now t

-- The entry that is kept of an event.
unfoldable pub entry_of : Event → HistoryEntry
entry_of ev = record {
  syscall = ev.syscall_id;
  timestamp = ev.timestamp;
  is_exit = ev.is_exit;
  arg0 = ev.arg0;
  arg1 = ev.arg1;
  ret = ev.return_value;
  dest_ip = ev.dest_ip;
  dest_port = ev.dest_port;
}

-- The oldest entries beyond the depth are dropped.
unfoldable pub trim : ℕ → List HistoryEntry → List HistoryEntry
trim depth entries =
    if ltb depth (length entries) then drop (length entries - depth) entries else entries

-- The history of a process with the event filed in it.
unfoldable pub file_event : ℕ → Event → Option ProcessHistory → ProcessHistory
file_event depth ev old = record {
  pid = get_or_else (elim old [ none ↦ none | some h ↦ some h.pid ]) ev.pid;
  comm = ev.comm;
  entries = trim depth (history_entries old ++ entry_of ev ∷ []);
  last_seen = ev.timestamp;
}

-- Tracker.Record.
unfoldable pub record_event : Event → Tracker → Tracker × Option ProcessHistory
record_event ev t =
    if tracked ev.syscall_id
    then (let swept = maybe_sweep ev.timestamp t in
        let h = file_event swept.depth ev (lookup ev.pid swept.procs) in
        (record swept { procs = insert ev.pid h swept.procs }, some h))
    else (t, none)

-- Tracker.Forget.
unfoldable pub forget : ℕ → Tracker → Tracker
forget pid t = record t { procs = delete pid t.procs }

-- Tracker.Len.
unfoldable pub tracker_len : Tracker → ℕ
tracker_len t = length t.procs
