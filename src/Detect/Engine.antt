-- ===== src/Detect/Engine.antt =====
-- detect/engine.go: the rules and the engine that runs them over an event. A cfg.Stat that is nil
-- is os.Stat from the start here.
pub mod Findings
pub mod Alerts
pub mod Invariant
pub mod Selection
pub mod Own
pub mod Runs
use krnl_sentry.Base.{
  ℕ, ltb_ℤ, ℤ, pos, String, Bool, true, false, ◌&&◌, ◌||◌, not, List, [], ◌∷◌, ◌++◌, map, Option,
  none, some, ◌==◌, nat_eq, string_eq, if◌then◌else◌, concat, join, trim_space, sort_texts,
}
use krnl_sentry.Events.Event.{Event, Args}
use krnl_sentry.Detect.Alert.{
  Alert, Technique, tech_abuse_elevation, tech_setuid_setgid, tech_exploit_priv_esc,
  tech_credential_dump, tech_etc_shadow, tech_proc_filesystem, tech_unsecured_creds,
  tech_creds_in_files, tech_private_keys, tech_process_injection, tech_ptrace_injection,
  tech_command_interpreter, tech_app_layer_protocol,
}
use krnl_sentry.Detect.Config.{
  Config, Context, default_config, rule_name_privilege_escalation, rule_name_sensitive_file,
  rule_name_process_injection, rule_name_reverse_shell,
}
use krnl_sentry.Detect.Tracker.{Tracker, ProcessHistory, new_tracker, record_event}
use krnl_sentry.Detect.Privesc.{eval_privilege_escalation}
use krnl_sentry.Detect.SensitiveFile.{eval_sensitive_file_access}
use krnl_sentry.Detect.Ptrace.{eval_ptrace_injection}
use krnl_sentry.Detect.Revshell.{eval_reverse_shell}
use krnl_sentry.Detect.Dedup.{Deduper, new_deduper, admit}
use krnl_sentry.Detect.Storyline.{
  new_correlator, correlate, observe_event, storylines, chains_raised,
}
use krnl_sentry.Detect.Storyline.Lineage.{Correlator}
use krnl_sentry.Detect.Storyline.Chain.{rule_name_attack_chain}

pub record Rule : Type 0 where
  pub name : String
  pub description : String
  pub techniques : List Technique
  pub eval : Context → Option Alert

unfoldable pub rule_privilege_escalation : Rule
rule_privilege_escalation = record {
  name = rule_name_privilege_escalation;
  description = "Non-root process attempting to acquire root identity or capabilities";
  techniques = tech_abuse_elevation ∷ tech_setuid_setgid ∷ tech_exploit_priv_esc ∷ [];
  eval = eval_privilege_escalation;
}

unfoldable pub rule_sensitive_file_access : Rule
rule_sensitive_file_access = record {
  name = rule_name_sensitive_file;
  description = "Access to credential stores, sudo configuration, private keys, or process memory";
  techniques =
      tech_credential_dump ∷ tech_etc_shadow ∷ tech_proc_filesystem ∷ tech_unsecured_creds
      ∷ tech_creds_in_files ∷ tech_private_keys ∷ [];
  eval = eval_sensitive_file_access;
}

unfoldable pub rule_ptrace_injection : Rule
rule_ptrace_injection = record {
  name = rule_name_process_injection;
  description = "ptrace used to attach to or write into another process";
  techniques = tech_process_injection ∷ tech_ptrace_injection ∷ [];
  eval = eval_ptrace_injection;
}

unfoldable pub rule_reverse_shell : Rule
rule_reverse_shell = record {
  name = rule_name_reverse_shell;
  description = "socket → connect → dup2(std fds) → execve sequence within one process";
  techniques = tech_command_interpreter ∷ tech_app_layer_protocol ∷ [];
  eval = eval_reverse_shell;
}

unfoldable pub all_rules : List Rule
unfolding rule_privilege_escalation rule_sensitive_file_access rule_ptrace_injection
    rule_reverse_shell
all_rules =
    rule_privilege_escalation ∷ rule_sensitive_file_access ∷ rule_ptrace_injection
    ∷ rule_reverse_shell ∷ []

unfoldable pub rule_names : List String
unfolding all_rules sort_texts
rule_names = sort_texts (map (λ r. Rule.name r) all_rules)

pub record Engine : Type 0 where
  pub rules : List Rule
  pub tracker : Tracker
  pub correlator : Option Correlator
  pub dedup : Option Deduper
  pub cfg : Config

-- The names of a set of texts.
unfoldable pub is_wanted : String → List String → Bool
is_wanted name [] = false
is_wanted name (w ∷ ws) = w == name || is_wanted name ws

-- The trimmed names, each once, without the empty ones.
unfoldable pub wanted_names : List String → List String → List String
wanted_names wanted [] = wanted
wanted_names wanted (name ∷ rest) =
    let trimmed = trim_space name in
    wanted_names
      (if trimmed == "" || is_wanted trimmed wanted then wanted else wanted ++ trimmed ∷ []) rest

-- The rules that are wanted, in their own order.
unfoldable pub selected : List String → List Rule → List Rule
selected wanted [] = []
selected wanted (r ∷ rs) =
    if is_wanted r.name wanted then r ∷ selected wanted rs else selected wanted rs

-- The wanted names that no rule has.
unfoldable pub unknown_names : List String → List Rule → List String
unknown_names [] rules = []
unknown_names (w ∷ ws) rules =
    if is_wanted w (map (λ r. Rule.name r) rules)
    then unknown_names ws rules
    else w ∷ unknown_names ws rules

-- The error of NewEngine, or the rules to run.
pub data Choice : Type 0 where
  chosen : List Rule → Choice
  refused : String → Choice

available : String
unfolding rule_names join concat
available = concat (" (available: " ∷ join ", " rule_names ∷ ")" ∷ [])

unfoldable pub check_choice : List Rule → List String → Choice
unfolding available
check_choice rules (u ∷ us) =
    refused (concat ("unknown rule(s): " ∷ join ", " (sort_texts (u ∷ us)) ∷ available ∷ []))
check_choice [] [] = refused (concat ("no rules enabled" ∷ available ∷ []))
check_choice (r ∷ rs) [] = chosen (r ∷ rs)

unfoldable pub choose_rules : List String → Choice
choose_rules [] = chosen all_rules
choose_rules (name ∷ names) =
    let wanted = wanted_names [] (name ∷ names) in
    check_choice (selected wanted all_rules) (unknown_names wanted all_rules)

pub data NewResult : Type 0 where
  ok : Engine → NewResult
  err : String → NewResult

-- A window that is not positive is replaced by the default.
abbrev pub with_window : Config → Config
with_window cfg =
    if ltb_ℤ (pos 0) cfg.rev_shell_window
    then cfg
    else record cfg { rev_shell_window = pos 2000000000 }

unfoldable pub start_engine : Config → Choice → NewResult
start_engine cfg (refused e) = err e
start_engine cfg (chosen rules) = ok (record {
  rules = rules;
  tracker = new_tracker;
  correlator = new_correlator cfg.storyline;
  dedup = new_deduper cfg.dedup_window;
  cfg = with_window cfg;
})

-- NewEngine.
unfoldable pub new_engine : Config → List String → NewResult
new_engine cfg enabled = start_engine cfg (choose_rules enabled)

-- Correlating.
unfoldable pub correlating : Engine → Bool
correlating e = elim e.correlator [ none ↦ false | some c ↦ true ]

pub record EngineStats : Type 0 where
  pub suppressed : ℕ
  pub open_storylines : ℕ
  pub attack_chains : ℕ

unfoldable pub stats : Engine → EngineStats
stats e = record {
  suppressed = elim e.dedup [ none ↦ 0 | some d ↦ d.total ];
  open_storylines = storylines e.correlator;
  attack_chains = chains_raised e.correlator;
}

-- What the loop over the rules changes: the correlator, the deduplicator, the map of the event's
-- arguments, which rules write to and which their alerts share, and the alerts so far.
pub record Progress : Type 0 where
  pub correlator : Option Correlator
  pub dedup : Option Deduper
  pub args : Args
  pub alerts : List Alert

-- The alerts that one alert adds: itself, if it is admitted, and the chain that it completes.
abbrev pub emitted : Alert → Bool → Option Alert → List Alert
emitted a false none = []
emitted a false (some chain) = chain ∷ []
emitted a true none = a ∷ []
emitted a true (some chain) = a ∷ chain ∷ []

-- The body of the loop after a rule: nil is skipped; an alert is correlated, then deduplicated.
-- The map of the event's arguments is the alert's.
unfoldable pub handle : Event → Progress → Option Alert → Progress
handle ev p none = p
handle ev p (some alert) =
    let c = correlate ev alert p.correlator in
    let d = admit p.dedup c.1 ev.timestamp in
    record {
      correlator = c.0;
      dedup = d.0;
      args = alert.args;
      alerts = p.alerts ++ emitted d.1 d.2 c.2;
    }

-- The loop over the rules.
unfoldable pub run_rules : Config → Event → Option ProcessHistory → List Rule → Progress → Progress
run_rules cfg ev history [] p = p
run_rules cfg ev history (r ∷ rs) p = run_rules cfg ev history rs (
    handle ev p
      (r.eval (record { event = record ev { args = p.args }; history = history; config = cfg })))

-- The alerts of one event share its map of arguments, so all show what the last rule left there.
-- An attack chain has a map of its own.
unfoldable pub share_args : Args → List Alert → List Alert
share_args args [] = []
share_args args (a ∷ as_) =
    (if a.rule == rule_name_attack_chain then a else record a { args = args }) ∷ share_args args as_

-- Evaluate.
unfoldable pub evaluate : Event → Engine → Engine × List Alert
evaluate ev e =
    if ev.pid == e.cfg.self_pid
    then (e, [])
    else let tracked_ = record_event ev e.tracker in
      let p = run_rules e.cfg ev tracked_.1 e.rules (record {
        correlator = observe_event ev e.correlator;
        dedup = e.dedup;
        args = ev.args;
        alerts = [];
      }) in
      (
        record e { tracker = tracked_.0; correlator = p.correlator; dedup = p.dedup },
        share_args p.args p.alerts,
      )

-- A run over the events of a capture, in order.
unfoldable pub evaluate_all : List Event → Engine → Engine × List Alert
evaluate_all [] e = (e, [])
evaluate_all (ev ∷ evs) e =
    let r = evaluate ev e in let rest = evaluate_all evs r.0 in (rest.0, r.1 ++ rest.1)
