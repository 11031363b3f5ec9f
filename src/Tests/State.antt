-- ===== src/Tests/State.antt =====
-- The properties of the stateful parts at concrete states.
use krnl_sentry.Base.{
  ◌<◌, ◌≤◌, leb, String, Bool, true, false, [], ◌∷◌, some, ◌≡◌, ◌≢◌, ◌↔◌, refl, arith, is_set, pos,
  keep, All, length, beq_refl, ltb_ℤ, nat_eq, string_eq,
}
use krnl_sentry.Dict.{lookup, IsMap}
use krnl_sentry.Events.Event.{Event}
use krnl_sentry.Detect.Alert.{StoryStep}
use krnl_sentry.Detect.Tracker.{
  ProcessHistory, new_tracker, within, cutoff, record_event, tracked, default_history_depth,
}
use krnl_sentry.Detect.Tracker.Window.{within-keep}
use krnl_sentry.Detect.Tracker.Bounds.{
  IsBounded, IsHistory, record_event-IsBounded, new_tracker-IsBounded,
}
use krnl_sentry.Detect.Tracker.Isolation.{record_event-lookup_ne}
use krnl_sentry.Detect.Dedup.{DedupEntry, dedup_key, admit_swept, maybe_sweep}
use krnl_sentry.Detect.Dedup.Bounds.{IsBounded as IsDedupBounded}
use krnl_sentry.Detect.Dedup.Fold.{Covers, admit_iff}
use krnl_sentry.Detect.Dedup.Spacing.{emitted_keys, emitted_keys_window}
use krnl_sentry.Detect.Storyline.{correlate_alert, file_alert, report}
use krnl_sentry.Detect.Storyline.Tactics.{tactic_execution, tactic_credential_access}
use krnl_sentry.Detect.Storyline.Story.{Storyline, add_step}
use krnl_sentry.Detect.Storyline.Story.Steps.{pivotal_steps, add_step_pivotal}
use krnl_sentry.Detect.Storyline.Lineage.{observe, ancestry, max_ancestry}
use krnl_sentry.Detect.Storyline.Lineage.Ancestry.{IsLine, ancestry-IsLine}
use krnl_sentry.Detect.Storyline.Reports.{report_iff}
use krnl_sentry.Detect.Storyline.Sound.{correlate_alert-IsSound}
use krnl_sentry.Detect.Storyline.Sound.Merging.{IsSound}
use krnl_sentry.Tests.Data.{
  connect_event, setuid_event, shell_calls, shell_history, shell_tracker, setuid_alert,
  first_emission, used_deduper, fresh_correlator,
}

within-keep_example :
    within (some shell_history) 4000000 2000000
    ≡ keep (λ e. leb (cutoff 4000000 2000000) e.timestamp) shell_calls
within-keep_example = within-keep shell_history 4000000 2000000 (ground arith)

record_event-IsBounded_example :
    IsBounded 1000000 (record_event connect_event new_tracker).0
    × ((h : ProcessHistory)
        → (record_event connect_event new_tracker).1 ≡ some h
        → IsHistory default_history_depth 1000000 h)
record_event-IsBounded_example =
    record_event-IsBounded connect_event new_tracker 0 (omega arith) new_tracker-IsBounded

-- A connect of another process.
abbrev other_event : Event
other_event = record connect_event { timestamp = 6000000; pid = 1001 }

shell_tracker-lookup : lookup 1000 shell_tracker.procs ≡ some shell_history
unfolding lookup
shell_tracker-lookup = refl

shell_tracker-IsMap : IsMap shell_tracker.procs
unfolding lookup
shell_tracker-IsMap = (refl, tt)

record_event-lookup_ne_example :
    lookup 1000 (record_event other_event shell_tracker).0.procs ≡ some shell_history
record_event-lookup_ne_example =
    record_event-lookup_ne other_event shell_tracker 1000 shell_history (ground arith)
      shell_tracker-IsMap (omega arith) (omega arith) (omega arith) (omega arith)
      shell_tracker-lookup

connect_tracked : tracked 10 ≡ true
unfolding tracked
connect_tracked = refl

-- The deduplicator after the setuid alert.
abbrev alert_key : String
alert_key = dedup_key setuid_alert

used_deduper-lookup : lookup alert_key (used_deduper alert_key).seen ≡ some first_emission
unfolding lookup
used_deduper-lookup = ground (arith, beq_refl alert_key)

used_deduper-IsBounded : IsDedupBounded (used_deduper alert_key)
unfolding lookup
used_deduper-IsBounded = record { is_map = (refl, tt); few = omega arith }

admit_iff_example :
    ((admit_swept (maybe_sweep 2000 (used_deduper alert_key)) setuid_alert 2000).2 ≡ false) ↔ (
      (e : DedupEntry) × (lookup alert_key (used_deduper alert_key).seen ≡ some e)
      × Covers 5000000000 2000 e)
admit_iff_example =
    admit_iff (used_deduper alert_key) setuid_alert 2000 used_deduper-IsBounded (omega arith)
      (omega arith) (omega arith)

emitted_keys_window_example :
    All
      (λ key. key ≢ alert_key)
      (emitted_keys
        ((setuid_alert, 2000) ∷ (setuid_alert, 4000000000) ∷ [])
        (used_deduper alert_key))
emitted_keys_window_example =
    emitted_keys_window alert_key first_emission
      ((setuid_alert, 2000) ∷ (setuid_alert, 4000000000) ∷ []) (used_deduper alert_key)
      used_deduper-IsBounded used_deduper-lookup (ground arith) (omega arith) (omega arith)

fresh_correlator-IsSound : IsSound fresh_correlator
fresh_correlator-IsSound = record { stories = tt; numbered = refl; pointers = tt }

correlate_alert-IsSound_example :
    IsSound (observe setuid_event fresh_correlator)
    × IsSound (correlate_alert setuid_event setuid_alert fresh_correlator).0
correlate_alert-IsSound_example =
    correlate_alert-IsSound setuid_event setuid_alert fresh_correlator fresh_correlator-IsSound

-- A story of two tactics.
abbrev two_tactics : Storyline
two_tactics = record {
  id = "ks-900-1";
  root = 900;
  root_comm = "bash";
  members = [];
  tactics = tactic_execution ∷ tactic_credential_access ∷ [];
  techniques = [];
  procs = [];
  steps = [];
  alerts = 2;
  first_ts = 1000;
  last_ts = 2000;
  reported_n = 0;
}

report_iff_example :
    let filed = (file_alert 3000 setuid_alert two_tactics).0 in
    (is_set (report 0 (file_alert 3000 setuid_alert two_tactics) setuid_alert fresh_correlator).1
      ≡ true)
    ↔ ((length two_tactics.tactics < length filed.tactics)
        × (ltb_ℤ (pos (length filed.tactics)) (pos 3) ≡ false)
        × (0 < length filed.tactics))
report_iff_example = report_iff 0 3000 setuid_alert two_tactics fresh_correlator

ancestry-IsLine_example :
    IsLine 1000 (ancestry 1000 900 3000 fresh_correlator).1
    × (length (ancestry 1000 900 3000 fresh_correlator).1 ≤ max_ancestry)
ancestry-IsLine_example = ancestry-IsLine 1000 900 3000 fresh_correlator

abbrev step : Bool → StoryStep
step pivotal = record {
  offset_ms = pos 0;
  pid = 1000;
  comm = "testproc";
  rule = "privilege-escalation";
  mitre_id = "T1548";
  tactic = "Privilege Escalation";
  summary = "setuid(0)";
  pivotal = pivotal;
}

add_step_pivotal_example :
    pivotal_steps (add_step (step false) (step true ∷ []))
    ≡ pivotal_steps (step true ∷ step false ∷ [])
add_step_pivotal_example = add_step_pivotal (step false) (step true ∷ []) (omega arith)
