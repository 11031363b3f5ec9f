-- ===== src/Tests/Engines.antt =====
-- The engine's properties at concrete engines.
use krnl_sentry.Base.{
  String, true, false, List, [], ◌∷◌, map, ◌≡◌, ◌≢◌, ◌↔◌, refl, arith, keep, All, string_eq, ◌==◌,
  trim_space, subst, eq_iff, inl, inr,
}
use krnl_sentry.Events.Event.{Event}
use krnl_sentry.Detect.Tracker.{new_tracker}
use krnl_sentry.Detect.Dedup.{new_deduper}
use krnl_sentry.Detect.Storyline.{new_correlator}
use krnl_sentry.Detect.Engine.{
  Rule, all_rules, rule_reverse_shell, rule_privilege_escalation, rule_sensitive_file_access,
  rule_ptrace_injection, Engine, ok, with_window, new_engine, choose_rules, start_engine,
  wanted_names, is_wanted, selected, unknown_names, check_choice, evaluate, evaluate_all,
}
use krnl_sentry.Detect.Engine.Alerts.{IsReport}
use krnl_sentry.Detect.Engine.Invariant.{IsWithinBounds, new_engine-IsWithinBounds}
use krnl_sentry.Detect.Engine.Runs.{new_engine-IsReport}
use krnl_sentry.Detect.Engine.Own.{is_other, evaluate_all-keep}
use krnl_sentry.Detect.Engine.Selection.{IsAsked, new_engine_iff}
use krnl_sentry.Tests.Data.{connect_event, setuid_event, exec_event, quiet_config}

-- A new engine with some rules.
abbrev engine_with : List Rule → Engine
engine_with rules = record {
  rules = rules;
  tracker = new_tracker;
  correlator = new_correlator quiet_config.storyline;
  dedup = new_deduper quiet_config.dedup_window;
  cfg = with_window quiet_config;
}

full_made : new_engine quiet_config [] ≡ ok (engine_with all_rules)
unfolding new_engine choose_rules start_engine
full_made = refl

abbrev events : List Event
events = connect_event ∷ setuid_event ∷ exec_event ∷ []

new_engine-IsWithinBounds_example :
    IsWithinBounds 5000000 (evaluate_all events (engine_with all_rules)).0
new_engine-IsWithinBounds_example =
    new_engine-IsWithinBounds quiet_config [] (engine_with all_rules) events full_made
      (omega arith, (omega arith, (omega arith, tt)))

new_engine-IsReport_example :
    All
      (IsReport setuid_event (map (λ r. Rule.name r) all_rules))
      (evaluate setuid_event (evaluate_all events (engine_with all_rules)).0).1
new_engine-IsReport_example =
    new_engine-IsReport quiet_config [] (engine_with all_rules) events setuid_event full_made

evaluate_all-keep_example :
    evaluate_all events (engine_with all_rules)
    ≡ evaluate_all
        (keep (is_other (with_window quiet_config).self_pid) events)
        (engine_with all_rules)
evaluate_all-keep_example = evaluate_all-keep events (engine_with all_rules)

abbrev asked : List String
asked = " reverse-shell " ∷ []

shell_made : new_engine quiet_config asked ≡ ok (engine_with (rule_reverse_shell ∷ []))
unfolding new_engine choose_rules start_engine wanted_names is_wanted selected unknown_names
    check_choice trim_space all_rules rule_reverse_shell rule_privilege_escalation
    rule_sensitive_file_access rule_ptrace_injection
shell_made = refl

new_engine_iff_example :
    ((rule_reverse_shell ∷ []) ≢ [])
    × ((name : String)
        → (is_wanted name (map (λ r. Rule.name r) (rule_reverse_shell ∷ [])) ≡ true)
          ↔ IsAsked name asked)
new_engine_iff_example =
    new_engine_iff quiet_config " reverse-shell " [] (engine_with (rule_reverse_shell ∷ []))
      shell_made

not_blank : (name : String) → (name == "") ≡ false → name ≢ ""
not_blank name h = ground (arith, h, eq_iff name "")

shell_asked : IsAsked "reverse-shell" asked
unfolding trim_space
shell_asked = inl (refl, not_blank "reverse-shell" refl)

asked_known :
    (name : String) → IsAsked name asked → is_wanted name (map (λ r. Rule.name r) all_rules) ≡ true
unfolding trim_space is_wanted all_rules rule_reverse_shell rule_privilege_escalation
    rule_sensitive_file_access rule_ptrace_injection
asked_known name (inl (same, filled)) =
    subst (λ n. is_wanted n (map (λ r. Rule.name r) all_rules) ≡ true) same refl
asked_known name (inr none_) = elim none_ [ ]
