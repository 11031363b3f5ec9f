-- ===== src/Detect/Dedup.antt =====
-- detect/dedup.go: repeats of a finding are folded into one alert per window.
pub mod Bounds
pub mod Fold
pub mod Spacing
use krnl_sentry.Base.{
  ℕ, suc, ◌+◌, ◌-◌, ◌*◌, ◌%◌, ◌<◌, ltb, leb, ltb_ℤ, ℤ, pos, String, Bool, true, false, ◌&&◌, ◌||◌,
  not, List, [], ◌∷◌, ◌++◌, Option, none, some, ◌==◌, nat_eq, string_eq, if◌then◌else◌, concat,
  format_uint, length, sub64, unsigned64, u64_mod,
}
use krnl_sentry.Dict.{lookup, insert, retain}
use krnl_sentry.Events.Event.{Args}
use krnl_sentry.Detect.Alert.{Alert}

abbrev pub max_dedup_keys : ℕ
max_dedup_keys = 16384

pub record DedupEntry : Type 0 where
  pub first_ts : ℕ
  pub suppressed : ℕ

pub record Deduper : Type 0 where
  pub window : ℕ
  pub seen : List (String × DedupEntry)
  pub last_sweep : ℕ
  pub total : ℕ

-- newDeduper: nil where the window is not positive.
unfoldable pub new_deduper : ℤ → Option Deduper
new_deduper window =
    if ltb_ℤ (pos 0) window
    then some (record { window = unsigned64 window; seen = []; last_sweep = 0; total = 0 })
    else none

-- "|k=v" for each of the keys that the arguments have.
unfoldable pub key_parts : Args → List String → List String
key_parts args [] = []
key_parts args (k ∷ ks) = elim (lookup k args) [
  | none ↦ key_parts args ks
  | some v ↦ concat ("|" ∷ k ∷ "=" ∷ v ∷ []) ∷ key_parts args ks
]

unfoldable pub distinguishing : List String
distinguishing =
    "path" ∷ "request" ∷ "target_pid" ∷ "target_uid" ∷ "target_gid" ∷ "euid" ∷ "egid" ∷ "chain_dest"
    ∷ []

unfoldable pub dedup_key : Alert → String
dedup_key a = concat (
    a.rule
    ∷ "|"
    ∷ format_uint a.pid
    ∷ "|"
    ∷ a.mitre_id
    ∷ "|"
    ∷ a.syscall
    ∷ key_parts a.args distinguishing)

abbrev pub dedup_retain : ℕ
dedup_retain = 4

-- What a sweep keeps: an entry that is not older than `now`, or whose age is below the window,
-- or below some windows if a fold count waits to be reported.
abbrev pub keeps_entry : ℕ → ℕ → String → DedupEntry → Bool
keeps_entry window now k e =
    let age = sub64 now e.first_ts in
    leb now e.first_ts
    || not ((e.suppressed == 0 && leb window age) || leb (dedup_retain * window % u64_mod) age)

abbrev pub drop_full {ℓ} : {V : Type ℓ} → List (String × V) → List (String × V)
drop_full m = if leb max_dedup_keys (length m) then [] else m

-- The body of a sweep: expired keys go, and everything if that leaves too many.
unfoldable pub sweep : ℕ → Deduper → Deduper
sweep now d = record d {
  last_sweep = now;
  seen = drop_full (retain (keeps_entry d.window now) d.seen);
}

-- Whether a sweep is not due: there is room, and the last sweep is not a window ago.
unfoldable pub sweep_waits : ℕ → Deduper → Bool
sweep_waits now d =
    not (d.last_sweep == 0)
    && (ltb (sub64 now d.last_sweep) d.window && ltb (length d.seen) max_dedup_keys)

-- deduper.maybeSweep.
unfoldable pub maybe_sweep : ℕ → Deduper → Deduper
maybe_sweep now d = if sweep_waits now d then d else sweep now d

-- Whether a repeat at `now` falls into the window of an entry.
abbrev pub in_window : ℕ → ℕ → DedupEntry → Bool
in_window window now e = leb e.first_ts now && ltb (sub64 now e.first_ts) window

-- What admit does with the entry of the alert's key.
unfoldable pub admit_entry :
    Deduper → String → Alert → ℕ → Option DedupEntry → Deduper × Alert × Bool
admit_entry d key a now none =
    (record d { seen = insert key (record { first_ts = now; suppressed = 0 }) d.seen }, a, true)
admit_entry d key a now (some e) =
    if in_window d.window now e
    then (
      record d {
        seen = insert key (record e { suppressed = e.suppressed + 1 }) d.seen;
        total = d.total + 1;
      },
      a,
      false,
    )
    else (
      record d { seen = insert key (record { first_ts = now; suppressed = 0 }) d.seen },
      record a { suppressed = e.suppressed },
      true,
    )

-- deduper.admit: the deduper, the alert with its fold count, and whether it is emitted.
unfoldable pub admit_swept : Deduper → Alert → ℕ → Deduper × Alert × Bool
admit_swept d a now = admit_entry d (dedup_key a) a now (lookup (dedup_key a) d.seen)

unfoldable pub admit : Option Deduper → Alert → ℕ → Option Deduper × Alert × Bool
admit none a now = (none, a, true)
admit (some d) a now = let r = admit_swept (maybe_sweep now d) a now in (some r.0, r.1, r.2)
