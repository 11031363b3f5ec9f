-- ===== src/Detect/Dedup/Fold.antt =====
-- When an alert is folded.
use krnl_sentry.Base.{
  ℕ, ◌+◌, ◌*◌, ◌%◌, ◌≤◌, ◌<◌, String, true, false, Option, none, some, ◌≡◌, ◌↔◌, refl, sym, arith,
  length, string_eq, sub64_of_le, u64_mod,
}
use native.Mathlib.Nat.{mod-eq_of_lt}
use krnl_sentry.Dict.{lookup, IsMap}
use krnl_sentry.Dict.Laws.{lookup-retain, length-retain-le}
use krnl_sentry.Detect.Alert.{Alert}
use krnl_sentry.Detect.Dedup.{
  DedupEntry, Deduper, keeps_entry, dedup_retain, sweep, maybe_sweep, admit_entry, admit_swept,
  dedup_key, in_window, max_dedup_keys,
}
use krnl_sentry.Detect.Dedup.Bounds.{IsBounded}

-- A time in the window that an entry opened.
abbrev pub Covers : ℕ → ℕ → DedupEntry → Type 0
Covers window now e = (e.first_ts ≤ now) × (now < e.first_ts + window)

pub in_window_iff :
    (window now : ℕ) (e : DedupEntry)
    → now < u64_mod
    → (in_window window now e ≡ true) ↔ Covers window now e
in_window_iff window now e word = (
  λ h. ground (arith, sub64_of_le now e.first_ts),
  λ h. ground (arith, sub64_of_le now e.first_ts),
)

-- A sweep keeps an entry whose window is not over.
keeps_in_window :
    (window now : ℕ) (key : String) (e : DedupEntry)
    → dedup_retain * window < u64_mod
    → in_window window now e ≡ true
    → keeps_entry window now key e ≡ true
keeps_in_window window now key e word h =
    let m : dedup_retain * window % u64_mod ≡ dedup_retain * window = mod-eq_of_lt word in
    ground (arith, m)

-- What a sweep keeps of a key: nothing new.
swept_lookup :
    (now : ℕ) (d : Deduper) (key : String) (e : DedupEntry)
    → IsMap d.seen
    → lookup key (maybe_sweep now d).seen ≡ some e
    → lookup key d.seen ≡ some e
unfolding maybe_sweep sweep lookup
swept_lookup now d key e m h = ground (arith, lookup-retain (keeps_entry d.window now) key d.seen m)

-- With room for a key, a sweep keeps an entry in its window.
pub swept_kept :
    (now : ℕ) (d : Deduper) (key : String) (e : DedupEntry)
    → IsMap d.seen
    → length d.seen < max_dedup_keys
    → dedup_retain * d.window < u64_mod
    → in_window d.window now e ≡ true
    → lookup key d.seen ≡ some e
    → lookup key (maybe_sweep now d).seen ≡ some e
unfolding maybe_sweep sweep
swept_kept now d key e m room word h f =
    let test = keeps_entry d.window now in
    ground (
      arith,
      lookup-retain test key d.seen m,
      keeps_in_window d.window now key e word h,
      length-retain-le test d.seen,
    )

pub maybe_sweep-window : (now : ℕ) (d : Deduper) → (maybe_sweep now d).window ≡ d.window
unfolding maybe_sweep sweep
maybe_sweep-window now d = ground arith

-- An alert is folded exactly if the swept entry of its key covers the time.
folds_swept :
    (d : Deduper) (key : String) (a : Alert) (now : ℕ) (o : Option DedupEntry)
    → (admit_entry d key a now o).2 ≡ false
    → (e : DedupEntry) × (o ≡ some e) × (in_window d.window now e ≡ true)
unfolding admit_entry
folds_swept d key a now none h = cc
folds_swept d key a now (some e) h = (e, refl, ground arith)

swept_folds :
    (d : Deduper) (key : String) (a : Alert) (now : ℕ) (e : DedupEntry)
    → in_window d.window now e ≡ true
    → (admit_entry d key a now (some e)).2 ≡ false
unfolding admit_entry
swept_folds d key a now e h = ground arith

-- For a deduplicator within its bounds that has room for another key, and a time and four windows
-- that are below 2^64, admit folds an alert exactly if its key was emitted less than a window ago.
pub admit_iff :
    (d : Deduper) (a : Alert) (now : ℕ)
    → IsBounded d
    → length d.seen < max_dedup_keys
    → dedup_retain * d.window < u64_mod
    → now < u64_mod
    → ((admit_swept (maybe_sweep now d) a now).2 ≡ false)
      ↔ ((e : DedupEntry) × (lookup (dedup_key a) d.seen ≡ some e) × Covers d.window now e)
unfolding admit_swept
admit_iff d a now v room word clock = (
  λ h.
      let key = dedup_key a in
      let swept = maybe_sweep now d in
      let (e, found, inside) = folds_swept swept key a now (lookup key swept.seen) h in
      (
        e,
        swept_lookup now d key e v.is_map found,
        (in_window_iff d.window now e clock).0 (rw (sym (maybe_sweep-window now d)) inside),
      ),
  λ f.
      let key = dedup_key a in
      let swept = maybe_sweep now d in
      let inside = (in_window_iff d.window now f.0 clock).1 f.2 in
      rw (swept_kept now d key f.0 v.is_map room word inside f.1)
        (swept_folds swept key a now f.0 (rw (maybe_sweep-window now d) inside)),
)
