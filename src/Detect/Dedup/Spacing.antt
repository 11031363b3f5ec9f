-- ===== src/Detect/Dedup/Spacing.antt =====
-- A key is emitted at most once in a window, over runs of alerts.
use krnl_sentry.Base.{
  ℕ, suc, ◌+◌, ◌*◌, ◌≤◌, ◌<◌, String, Bool, true, false, List, [], ◌∷◌, Option, none, some, ◌≡◌,
  ◌≢◌, refl, arith, if◌then◌else◌, Bool-cases, inl, inr, length, string_eq, sym, subst, ◌∙◌,
  u64_mod, All, ◌==◌, eq_iff,
}
use krnl_sentry.Dict.{lookup}
use krnl_sentry.Dict.Laws.{lookup-insert, length-insert, length-retain-le}
use krnl_sentry.Detect.Alert.{Alert}
use krnl_sentry.Detect.Dedup.{
  DedupEntry, Deduper, keeps_entry, dedup_retain, sweep, maybe_sweep, admit_entry, admit_swept,
  dedup_key, in_window, max_dedup_keys,
}
use krnl_sentry.Detect.Dedup.Bounds.{IsBounded, admit-IsBounded}
use krnl_sentry.Detect.Dedup.Fold.{Covers, in_window_iff, swept_kept, maybe_sweep-window, admit_iff}

-- One alert at a time, as Evaluate gives it to admit.
abbrev admit_at : Deduper → Alert × ℕ → Deduper × Alert × Bool
admit_at d (a, now) = admit_swept (maybe_sweep now d) a now

-- The keys that a run of alerts emits.
unfoldable pub emitted_keys : List (Alert × ℕ) → Deduper → List String
emitted_keys [] d = []
emitted_keys ((a, now) ∷ rest) d =
    let r = admit_at d (a, now) in
    let later = emitted_keys rest r.0 in if r.2 then dedup_key a ∷ later else later

length-maybe_sweep-le : (now : ℕ) (d : Deduper) → length (maybe_sweep now d).seen ≤ length d.seen
unfolding maybe_sweep sweep
length-maybe_sweep-le now d = ground (arith, length-retain-le (keeps_entry d.window now) d.seen)

admit_entry-length :
    (d : Deduper) (key : String) (a : Alert) (now : ℕ) (o : Option DedupEntry)
    → length (admit_entry d key a now o).0.seen ≤ length d.seen + 1
unfolding admit_entry
admit_entry-length d key a now none =
    length-insert key (record { first_ts = now; suppressed = 0 }) d.seen
admit_entry-length d key a now (some e) = ground (
  arith,
  length-insert key (record { first_ts = now; suppressed = 0 }) d.seen,
  length-insert key (record e { suppressed = e.suppressed + 1 }) d.seen,
)

admit_entry-window :
    (d : Deduper) (key : String) (a : Alert) (now : ℕ) (o : Option DedupEntry)
    → (admit_entry d key a now o).0.window ≡ d.window
unfolding admit_entry
admit_entry-window d key a now none = refl
admit_entry-window d key a now (some e) = ground arith

-- The entry of a key in its window keeps its start, whatever alert comes.
abbrev Starts : ℕ → String → Deduper → Type 0
Starts start k d = (e : DedupEntry) × (lookup k d.seen ≡ some e) × (e.first_ts ≡ start)

admit_entry-Starts :
    (d : Deduper) (k key : String) (a : Alert) (now : ℕ) (e : DedupEntry)
    → lookup k d.seen ≡ some e
    → in_window d.window now e ≡ true
    → Starts e.first_ts k (admit_entry d key a now (lookup key d.seen)).0
unfolding admit_entry
admit_entry-Starts d k key a now e found inside = elim (Bool-cases (key == k)) [
  | inl same ↦
      let f : DedupEntry = record e { suppressed = e.suppressed + 1 } in
      let is_key : key ≡ k = (eq_iff key k).0 same in
      rw (is_key, found, admit_entry, inside)
        (f, ground (arith, lookup-insert k k f d.seen, eq_iff k k), refl)
  | inr other ↦ (e, other_kept d k key a now (lookup key d.seen) other ∙ found, refl)
]
  where
    other_kept :
        (d : Deduper) (k key : String) (a : Alert) (now : ℕ) (o : Option DedupEntry)
        → (key == k) ≡ false
        → lookup k (admit_entry d key a now o).0.seen ≡ lookup k d.seen
    other_kept d k key a now none ne =
        ground (arith, lookup-insert key k (record { first_ts = now; suppressed = 0 }) d.seen)
    other_kept d k key a now (some e) ne = ground (
      arith,
      lookup-insert key k (record { first_ts = now; suppressed = 0 }) d.seen,
      lookup-insert key k (record e { suppressed = e.suppressed + 1 }) d.seen,
    )

-- The alerts of a run all come in one window, from `start`.
abbrev pub Within : ℕ → ℕ → List (Alert × ℕ) → Type 0
Within start window = All (λ r. (start ≤ r.1) × (r.1 < start + window) × (r.1 < u64_mod))

-- The state between two alerts of such a run, with `more` alerts to come.
record Holds (k : String) (start window more : ℕ) (d : Deduper) : Type 0 where
  bounded : IsBounded d
  room : length d.seen + more < max_dedup_keys
  window_is : d.window ≡ window
  starts : Starts start k d

Covers-start :
    {k : String} {start window more : ℕ} {d : Deduper} (now : ℕ)
    → (v : Holds k start window more d) → start ≤ now
    → now < start + window
    → Covers d.window now v.starts.0
Covers-start now v le lt = let s = v.starts.2 in let w = v.window_is in (omega arith, omega arith)

admit_at-Holds :
    (k : String) (start window more : ℕ) (d : Deduper) (a : Alert) (now : ℕ)
    → dedup_retain * window < u64_mod
    → Holds k start window (suc more) d
    → start ≤ now
    → now < start + window
    → now < u64_mod
    → Holds k start window more (admit_at d (a, now)).0
unfolding admit_swept
admit_at-Holds k start window more d a now word v le lt clock =
    let swept = maybe_sweep now d in
    let key = dedup_key a in
    let o = lookup key swept.seen in
    let e = v.starts.0 in
    let same = v.window_is in
    let full = v.room in
    let inside = (in_window_iff d.window now e clock).1 (Covers-start now v le lt) in
    let kept =
      swept_kept now d k e v.bounded.is_map (omega arith)
        (subst (λ w. dedup_retain * w < u64_mod) (sym same) word) inside v.starts.1 in
    let next =
      admit_entry-Starts swept k key a now e kept
        (subst (λ w. in_window w now e ≡ true) (sym (maybe_sweep-window now d)) inside) in
    record {
      bounded = admit-IsBounded d a now v.bounded;
      room = omega (arith, admit_entry-length swept key a now o, length-maybe_sweep-le now d);
      window_is = admit_entry-window swept key a now o ∙ (maybe_sweep-window now d ∙ same);
      starts = (next.0, next.1, next.2 ∙ v.starts.2);
    }

-- An alert with the key of the window is folded.
admit_at-folded :
    (k : String) (start window more : ℕ) (d : Deduper) (a : Alert) (now : ℕ)
    → dedup_retain * window < u64_mod
    → Holds k start window (suc more) d
    → start ≤ now
    → now < start + window
    → now < u64_mod
    → dedup_key a ≡ k
    → (admit_at d (a, now)).2 ≡ false
admit_at-folded k start window more d a now word v le lt clock is_key =
    let same = v.window_is in
    let full = v.room in
    (admit_iff d a now v.bounded (omega arith)
        (subst (λ w. dedup_retain * w < u64_mod) (sym same) word) clock).1
      (v.starts.0, rw is_key v.starts.1, Covers-start now v le lt)

emitted_keys-Holds :
    (k : String) (start window : ℕ) (run : List (Alert × ℕ)) (d : Deduper)
    → dedup_retain * window < u64_mod
    → Holds k start window (length run) d
    → Within start window run
    → All (λ key. key ≢ k) (emitted_keys run d)
unfolding emitted_keys
emitted_keys-Holds k start window [] d word v w = tt
emitted_keys-Holds k start window ((a, now) ∷ rest) d word v (here, later) =
    let next = admit_at-Holds k start window (length rest) d a now word v here.0 here.1 here.2 in
    let others = emitted_keys-Holds k start window rest (admit_at d (a, now)).0 word next later in
    let folded = admit_at-folded k start window (length rest) d a now word v here.0 here.1 here.2 in
    elim (Bool-cases (admit_at d (a, now)).2) [
      | inl sent ↦ rw sent ((λ e. cc (folded e)), others)
      | inr no_ ↦ rw no_ others
    ]

-- After an alert whose key was last emitted at a time `start`, no alert of a run inside the window
-- from `start` is emitted with that key, whatever other alerts come between, as long as the
-- deduplicator is within its bounds, there is room for the keys of the run, and the times and four
-- windows are below 2^64.
pub emitted_keys_window :
    (k : String) (e : DedupEntry) (run : List (Alert × ℕ)) (d : Deduper)
    → IsBounded d
    → lookup k d.seen ≡ some e
    → Within e.first_ts d.window run
    → length d.seen + length run < max_dedup_keys
    → dedup_retain * d.window < u64_mod
    → All (λ key. key ≢ k) (emitted_keys run d)
emitted_keys_window k e run d v found inside room word =
    emitted_keys-Holds k e.first_ts d.window run d word
      (record { bounded = v; room = room; window_is = refl; starts = (e, found, refl) }) inside
