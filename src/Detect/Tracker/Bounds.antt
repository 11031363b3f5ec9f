-- ===== src/Detect/Tracker/Bounds.antt =====
-- The bounds of the tracker, over any run of events.
use krnl_sentry.Base.{
  ℕ, zero, suc, ◌-◌, ◌≤◌, ◌<◌, List, [], ◌∷◌, ◌++◌, Option, none, some, ◌≡◌, refl, arith, leb,
  Bool-cases, inl, inr, length, drop, All, All-append, All-drop, All-mono, subst, length-drop,
  nat_eq,
}
use mathlib.Core.Option.{some-injective}
use krnl_sentry.Dict.{lookup, insert, retain, IsMap}
use krnl_sentry.Dict.Laws.{
  Values, insert-IsMap, retain-IsMap, length-insert, Values-lookup, Values-insert, Values-retain,
}
use krnl_sentry.Events.Event.{Event}
use krnl_sentry.Detect.Tracker.{
  HistoryEntry, ProcessHistory, Tracker, new_tracker, sweep, sweep_waits, maybe_sweep, trim,
  file_event, history_entries, entry_of, tracked, record_event, is_fresh, default_history_depth,
  default_max_processes,
}
use krnl_sentry.Detect.Tracker.Window.{IsOrdered}

-- A history within the depth, in the order of time, and not later than `now`.
pub record IsHistory (depth now : ℕ) (h : ProcessHistory) : Type 0 where
  pub short : length h.entries ≤ depth
  pub ordered : IsOrdered h.entries
  pub past : All (λ e. e.timestamp ≤ now) h.entries

abbrev pub Histories : ℕ → ℕ → List (ℕ × ProcessHistory) → Type 0
Histories depth now = Values (IsHistory depth now)

-- What holds of a tracker that has seen events up to `now`.
pub record IsBounded (now : ℕ) (t : Tracker) : Type 0 where
  pub depth_is : t.depth ≡ default_history_depth
  pub max_is : t.max_processes ≡ default_max_processes
  pub is_map : IsMap t.procs
  pub few : length t.procs ≤ default_max_processes
  pub histories : Histories default_history_depth now t.procs

IsHistory-mono :
    {depth now later : ℕ} {h : ProcessHistory}
    → now ≤ later
    → IsHistory depth now h
    → IsHistory depth later h
IsHistory-mono {depth} {now} {later} {h} le v = record {
  short = v.short;
  ordered = v.ordered;
  past = All-mono _ _ h.entries (λ e p. omega arith) v.past;
}

-- An entry that is not earlier than the others goes to the end.
IsOrdered-append :
    (es : List HistoryEntry) (e : HistoryEntry)
    → IsOrdered es
    → All (λ d. d.timestamp ≤ e.timestamp) es
    → IsOrdered (es ++ e ∷ [])
IsOrdered-append [] e o h = (tt, tt)
IsOrdered-append (d ∷ es) e o h =
    (All-append _ es (e ∷ []) o.0 (h.0, tt), IsOrdered-append es e o.1 h.1)

IsOrdered-drop : (n : ℕ) (es : List HistoryEntry) → IsOrdered es → IsOrdered (drop n es)
IsOrdered-drop zero es o = o
IsOrdered-drop (suc n) [] o = o
IsOrdered-drop (suc n) (e ∷ es) o = IsOrdered-drop n es o.1

length-trim : (depth : ℕ) (es : List HistoryEntry) → length (trim depth es) ≤ depth
unfolding trim
length-trim depth es = ground (arith, length-drop (length es - depth) es)

trim-IsHistory :
    (depth now : ℕ) (es : List HistoryEntry)
    → IsOrdered es
    → All (λ e. e.timestamp ≤ now) es
    → IsOrdered (trim depth es) × All (λ e. e.timestamp ≤ now) (trim depth es)
unfolding trim
trim-IsHistory depth now es o p =
    ground (arith, IsOrdered-drop (length es - depth) es o, All-drop _ (length es - depth) es p)

-- The new history of a process: bounded, ordered and up to date.
file_event-IsHistory :
    (depth : ℕ) (ev : Event) (old : Option ProcessHistory)
    → IsOrdered (history_entries old)
    → All (λ e. e.timestamp ≤ ev.timestamp) (history_entries old)
    → IsHistory depth ev.timestamp (file_event depth ev old)
unfolding file_event entry_of
file_event-IsHistory depth ev old o p =
    let es = history_entries old ++ entry_of ev ∷ [] in
    let kept =
      trim-IsHistory depth ev.timestamp es
        (IsOrdered-append (history_entries old) (entry_of ev) o p)
        (All-append _ (history_entries old) (entry_of ev ∷ []) p (omega arith, tt)) in
    record { short = length-trim depth es; ordered = kept.0; past = kept.1 }

old-IsOrdered :
    {depth now : ℕ} (old : Option ProcessHistory)
    → ((h : ProcessHistory) → old ≡ some h → IsHistory depth now h)
    → IsOrdered (history_entries old) × All (λ e. e.timestamp ≤ now) (history_entries old)
unfolding history_entries
old-IsOrdered none v = (tt, tt)
old-IsOrdered (some h) v = ((v h refl).ordered, (v h refl).past)

-- A sweep leaves room for one more process.
sweep-IsBounded :
    (now : ℕ) (t : Tracker)
    → IsBounded now t
    → IsBounded now (sweep now t) × (length (sweep now t).procs < default_max_processes)
unfolding sweep
sweep-IsBounded now t v =
    let limit = t.max_processes in
    let kept = retain (is_fresh t.ttl now) t.procs in
    let maps = retain-IsMap (is_fresh t.ttl now) t.procs v.is_map in
    let hs =
      Values-retain (IsHistory default_history_depth now) (is_fresh t.ttl now) t.procs
        v.histories in
    elim (Bool-cases (leb limit (length kept))) [
      | inl full ↦ rw full (
        record {
          depth_is = v.depth_is;
          max_is = v.max_is;
          is_map = tt;
          few = omega arith;
          histories = tt;
        },
        omega arith,
      )
      | inr room ↦ rw room (
        record {
          depth_is = v.depth_is;
          max_is = v.max_is;
          is_map = maps;
          few = ground (arith, v.max_is);
          histories = hs;
        },
        ground (arith, v.max_is),
      )
    ]

maybe_sweep-IsBounded :
    (now : ℕ) (t : Tracker)
    → IsBounded now t
    → IsBounded now (maybe_sweep now t) × (length (maybe_sweep now t).procs < default_max_processes)
unfolding maybe_sweep sweep_waits
maybe_sweep-IsBounded now t v = ground (arith, sweep-IsBounded now t v)

pub IsBounded-mono :
    {now later : ℕ} (t : Tracker) → now ≤ later → IsBounded now t → IsBounded later t
IsBounded-mono {now} {later} t le v = record {
  depth_is = v.depth_is;
  max_is = v.max_is;
  is_map = v.is_map;
  few = v.few;
  histories = All-mono _ _ t.procs (λ p h. IsHistory-mono le h) v.histories;
}

-- The history that a tracker within its bounds files an event in.
filed-IsHistory :
    (ev : Event) (t : Tracker)
    → IsBounded ev.timestamp t
    → IsHistory default_history_depth ev.timestamp (file_event t.depth ev (lookup ev.pid t.procs))
filed-IsHistory ev t v =
    let old = lookup ev.pid t.procs in
    let past = old-IsOrdered {depth = default_history_depth} {now = ev.timestamp} old (λ h e.
      Values-lookup (IsHistory default_history_depth ev.timestamp) ev.pid t.procs v.histories e) in
    subst (λ d. IsHistory d ev.timestamp (file_event t.depth ev old)) v.depth_is
      (file_event-IsHistory t.depth ev old past.0 past.1)

filed-IsBounded :
    (ev : Event) (t : Tracker)
    → IsBounded ev.timestamp t
    → length t.procs < default_max_processes
    → IsBounded ev.timestamp
        (record t { procs = insert ev.pid (file_event t.depth ev (lookup ev.pid t.procs)) t.procs })
filed-IsBounded ev t v room =
    let h = file_event t.depth ev (lookup ev.pid t.procs) in
    record {
      depth_is = v.depth_is;
      max_is = v.max_is;
      is_map = insert-IsMap ev.pid h t.procs v.is_map;
      few = omega (arith, length-insert ev.pid h t.procs);
      histories =
          Values-insert (IsHistory default_history_depth ev.timestamp) ev.pid h t.procs
            (filed-IsHistory ev t v) v.histories;
    }

-- For a tracker within its bounds and an event that is not older than what it has seen, Record
-- keeps at most 8192 processes, at most 32 entries for each, in the order of time and none from the
-- future. So is the history that it returns.
pub record_event-IsBounded :
    (ev : Event) (t : Tracker) (now : ℕ)
    → now ≤ ev.timestamp
    → IsBounded now t
    → IsBounded ev.timestamp (record_event ev t).0
      × ((h : ProcessHistory)
          → (record_event ev t).1 ≡ some h
          → IsHistory default_history_depth ev.timestamp h)
unfolding record_event
record_event-IsBounded ev t now le v =
    let later = IsBounded-mono t le v in
    let swept = maybe_sweep-IsBounded ev.timestamp t later in
    elim (Bool-cases (tracked ev.syscall_id)) [
      | inl yes_ ↦ rw yes_ (
        filed-IsBounded ev (maybe_sweep ev.timestamp t) swept.0 swept.1,
        λ h e.
            subst (IsHistory default_history_depth ev.timestamp) (some-injective _ h e)
              (filed-IsHistory ev (maybe_sweep ev.timestamp t) swept.0),
      )
      | inr no_ ↦ rw no_ (later, λ h e. cc)
    ]

unfoldable pub record_all : List Event → Tracker → Tracker
record_all [] t = t
record_all (ev ∷ evs) t = record_all evs (record_event ev t).0

-- Events in the order of time, none before `now`, and the time of the last.
abbrev pub InOrder : ℕ → List Event → Type 0
InOrder now [] = Unit
InOrder now (ev ∷ evs) = (now ≤ ev.timestamp) × InOrder ev.timestamp evs

abbrev pub last_time : ℕ → List Event → ℕ
last_time now [] = now
last_time now (ev ∷ evs) = last_time ev.timestamp evs

record_all-IsBounded :
    (evs : List Event) (t : Tracker) (now : ℕ)
    → InOrder now evs
    → IsBounded now t
    → IsBounded (last_time now evs) (record_all evs t)
unfolding record_all
record_all-IsBounded [] t now o v = v
record_all-IsBounded (ev ∷ evs) t now o v =
    record_all-IsBounded evs (record_event ev t).0 ev.timestamp o.1
      (record_event-IsBounded ev t now o.0 v).0

pub new_tracker-IsBounded : IsBounded 0 new_tracker
unfolding new_tracker
new_tracker-IsBounded = record {
  depth_is = refl;
  max_is = refl;
  is_map = tt;
  few = omega arith;
  histories = tt;
}

-- A tracker that starts empty stays within its bounds over any events in the order of time.
pub record_all-new_tracker :
    (evs : List Event) → InOrder 0 evs → IsBounded (last_time 0 evs) (record_all evs new_tracker)
record_all-new_tracker evs o = record_all-IsBounded evs new_tracker 0 o new_tracker-IsBounded
