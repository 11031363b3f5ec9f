-- ===== src/Detect/Dedup/Bounds.antt =====
-- The deduplicator's memory over any run of alerts.
use krnl_sentry.Base.{ℕ, ◌+◌, ◌≤◌, ◌<◌, String, Option, none, some, arith, length, string_eq}
use krnl_sentry.Dict.{lookup, IsMap}
use krnl_sentry.Dict.Laws.{insert-IsMap, retain-IsMap, length-insert, length-retain-le}
use krnl_sentry.Detect.Alert.{Alert}
use krnl_sentry.Detect.Dedup.{
  DedupEntry, Deduper, keeps_entry, sweep, sweep_waits, maybe_sweep, admit_entry, admit_swept,
  dedup_key, max_dedup_keys,
}

pub record IsBounded (d : Deduper) : Type 0 where
  pub is_map : IsMap d.seen
  pub few : length d.seen ≤ max_dedup_keys

sweep-IsBounded :
    (now : ℕ) (d : Deduper)
    → IsBounded d
    → IsBounded (sweep now d) × (length (sweep now d).seen < max_dedup_keys)
unfolding sweep
sweep-IsBounded now d v =
    let test = keeps_entry d.window now in
    ground (arith, retain-IsMap test d.seen v.is_map, length-retain-le test d.seen)

maybe_sweep-IsBounded :
    (now : ℕ) (d : Deduper)
    → IsBounded d
    → IsBounded (maybe_sweep now d) × (length (maybe_sweep now d).seen < max_dedup_keys)
unfolding maybe_sweep sweep_waits
maybe_sweep-IsBounded now d v = ground (arith, sweep-IsBounded now d v)

admit_entry-IsBounded :
    (d : Deduper) (key : String) (a : Alert) (now : ℕ) (o : Option DedupEntry)
    → IsBounded d
    → length d.seen < max_dedup_keys
    → IsBounded (admit_entry d key a now o).0
unfolding admit_entry
admit_entry-IsBounded d key a now none v room =
    let e : DedupEntry = record { first_ts = now; suppressed = 0 } in
    record {
      is_map = insert-IsMap key e d.seen v.is_map;
      few = omega (arith, length-insert key e d.seen);
    }
admit_entry-IsBounded d key a now (some old) v room =
    let e : DedupEntry = record { first_ts = now; suppressed = 0 } in
    let f : DedupEntry = record old { suppressed = old.suppressed + 1 } in
    ground (
      arith,
      insert-IsMap key e d.seen v.is_map,
      length-insert key e d.seen,
      insert-IsMap key f d.seen v.is_map,
      length-insert key f d.seen,
    )

-- Whatever the alert and the time, a deduplicator with at most 16384 keys, each once, has at most
-- 16384 keys, each once, after admit.
pub admit-IsBounded :
    (d : Deduper) (a : Alert) (now : ℕ)
    → IsBounded d
    → IsBounded (admit_swept (maybe_sweep now d) a now).0
unfolding admit_swept
admit-IsBounded d a now v =
    let swept = maybe_sweep-IsBounded now d v in
    admit_entry-IsBounded (maybe_sweep now d) (dedup_key a) a now
      (lookup (dedup_key a) (maybe_sweep now d).seen) swept.0 swept.1
