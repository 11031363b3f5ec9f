-- ===== src/Cmd/Setup.antt =====
-- cmd/krnlsentry/main.go: what the command line sets up, and the summary at the end.
use Prim.Native.Char.{Char, code}
use krnl_sentry.Base.{
  ℕ, ℤ, pos, negsuc, ◌+◌, ◌*◌, ◌%◌, ◌^◌, ltb, String, Bool, false, not, ◌&&◌, List, [], ◌∷◌, ◌++◌,
  map, Option, none, some, if◌then◌else◌, ◌==◌, nat_eq, string_eq, concat, format_uint, trim_space,
  quote, length,
}
use krnl_sentry.Detect.Alert.{Severity, parse_severity}
use krnl_sentry.Detect.Config.{Config, ProcLookup, StatFunc, default_config, second}
use krnl_sentry.Detect.Engine.{Engine, correlating, stats}
use krnl_sentry.Events.Record.{Result, ok, err}
use krnl_sentry.Output.Dashboard.{DashboardOptions}
use krnl_sentry.Cmd.Pipeline.{Counters, KernelStats}

-- config. Durations are in nanoseconds. The speed of a replay, a float64, is left to the pacer.
pub record Options : Type 0 where
  pub pid : ℤ
  pub output_path : String
  pub rules : String
  pub verbose : Bool
  pub debug_path : String
  pub min_severity : String
  pub window : ℤ
  pub no_color : Bool
  pub force_color : Bool
  pub ignore_loop : Bool
  pub ignore_self : Bool
  pub stats_interval : ℤ
  pub show_version : Bool
  pub list_rules : Bool
  pub replay_path : String
  pub dashboard : Bool
  pub dedup_window : ℤ
  pub no_storyline : Bool
  pub chain_threshold : ℤ
  pub chain_window : ℤ

-- The defaults of parseFlags.
unfoldable pub default_options : Options
default_options = record {
  pid = pos 0;
  output_path = "./alerts.jsonl";
  rules = "";
  verbose = false;
  debug_path = "./debug.jsonl";
  min_severity = "LOW";
  window = pos (2 * second);
  no_color = false;
  force_color = false;
  ignore_loop = false;
  ignore_self = false;
  stats_interval = pos 0;
  show_version = false;
  list_rules = false;
  replay_path = "";
  dashboard = false;
  dedup_window = pos (5 * second);
  no_storyline = false;
  chain_threshold = pos 3;
  chain_window = pos (600 * second);
}

-- The pieces of a text between commas: strings.Split(s, ",").
unfoldable pub add_head : Char → List String → List String
add_head c [] = String.◌∷◌ c "" ∷ []
add_head c (s ∷ ss) = String.◌∷◌ c s ∷ ss

unfoldable pub split_commas : String → List String
unfolding add_head
split_commas String.[] = "" ∷ []
split_commas (String.◌∷◌ c s) =
    let rest = split_commas s in if code c == b',' then "" ∷ rest else add_head c rest

unfoldable pub trimmed_parts : List String → List String
trimmed_parts [] = []
trimmed_parts (p ∷ parts) =
    let rest = trimmed_parts parts in
    let part = trim_space p in if part == "" then rest else part ∷ rest

-- splitRules.
unfoldable pub split_rules : String → List String
unfolding split_commas trimmed_parts
split_rules s = if trim_space s == "" then [] else trimmed_parts (split_commas s)

abbrev pub is_replaying : Options → Bool
is_replaying o = not (o.replay_path == "")

-- The configuration of the engine in run. os.Stat, os.Getpid and lookupProc are arguments.
unfoldable pub engine_config : StatFunc → ℕ → ProcLookup → Options → Config
unfolding default_config
engine_config os_stat self lookup_proc o =
    let base = default_config os_stat self in
    record base {
      rev_shell_window = o.window;
      ignore_loopback = o.ignore_loop;
      ignore_self_proc = o.ignore_self;
      dedup_window = o.dedup_window;
      storyline = (record {
        enabled = not o.no_storyline;
        threshold = o.chain_threshold;
        window = o.chain_window;
        lookup = if is_replaying o then none else some lookup_proc;
      });
      self_pid = if is_replaying o then 0 else base.self_pid;
    }

-- displayMode.
unfoldable pub display_mode : Options → String
display_mode o = if is_replaying o then "replay" else "live"

-- scopeLabel.
unfoldable pub scope_label : ℤ → String
scope_label (negsuc n) = "system-wide"
scope_label (pos n) =
    if ltb 0 n then concat ("PID " ∷ format_uint n ∷ " + descendants" ∷ []) else "system-wide"

-- The severity of the display; `upper` is strings.ToUpper of the option.
unfoldable pub display_severity : String → String → Result Severity
display_severity option upper =
    let r = parse_severity upper in
    if r.1
    then ok r.0
    else err (
        concat
          ("invalid --min-severity " ∷ quote option ∷ " (want LOW, MEDIUM, HIGH or CRITICAL)" ∷ []))

-- Whether the dashboard is used: not on a writer that is no terminal, unless colours are forced.
unfoldable pub use_dashboard : Options → Bool → Bool
use_dashboard o usable = o.dashboard && not (not usable && not o.force_color)

-- enabledRuleNames.
unfoldable pub enabled_rule_names : Engine → List String
enabled_rule_names e =
    map (λ r. r.name) e.rules ++ (if correlating e then "attack-chain" ∷ [] else [])

-- The options of the dashboard in run.
unfoldable pub dashboard_options : String → Options → Engine → Severity → DashboardOptions
dashboard_options version o e min_severity = record {
  version = version;
  mode = display_mode o;
  scope = scope_label o.pid;
  source = o.replay_path;
  alert_path = o.output_path;
  rules = enabled_rule_names e;
  min_severity = min_severity;
  color = not o.no_color;
  width = 0;
  height = 0;
}

abbrev line_if : Bool → List String → String
line_if shown pieces = if shown then concat pieces else ""

-- printSummary, with what the collector's Stats answers, where there is a collector.
unfoldable pub summary : Option KernelStats → Engine → Counters → String
summary kernel e c =
    let es = stats e in
    concat (
      "\n── summary ─────────────────────────────\n"
      ∷ "  events observed : "
      ∷ format_uint c.observed
      ∷ "\n"
      ∷ "  alerts raised   : "
      ∷ format_uint c.alerts
      ∷ "\n"
      ∷ "  rules enabled   : "
      ∷ format_uint (length e.rules)
      ∷ "\n"
      ∷ line_if (ltb 0 es.suppressed) (
          "  alerts folded   : "
          ∷ format_uint es.suppressed
          ∷ "  (duplicates within --dedup-window)\n"
          ∷ [])
      ∷ line_if (correlating e) ("  attack chains   : " ∷ format_uint es.attack_chains ∷ "\n" ∷ [])
      ∷ elim kernel [
        | none ↦ ""
        | some s ↦ concat (
            "  kernel events   : "
            ∷ format_uint s.events
            ∷ "\n"
            ∷ line_if (ltb 0 s.dropped)
                ("  kernel drops    : " ∷ format_uint s.dropped ∷ "  (ring buffer full)\n" ∷ [])
            ∷ [])
      ]
      ∷ line_if (ltb 0 c.queue_dropped) (
          "  queue drops     : "
          ∷ format_uint c.queue_dropped
          ∷ "  (detection engine fell behind)\n"
          ∷ [])
      ∷ line_if (ltb 0 c.write_errors)
          ("  write errors    : " ∷ format_uint c.write_errors ∷ "\n" ∷ [])
      ∷ "────────────────────────────────────────\n"
      ∷ [])

-- The number of lost events that printSummary warns of, where it is not 0.
unfoldable pub total_dropped : Option KernelStats → Counters → ℕ
total_dropped none c = c.queue_dropped
total_dropped (some s) c = (c.queue_dropped + s.dropped) % 2 ^ 64
