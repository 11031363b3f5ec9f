-- ===== src/Detect/Config.antt =====
-- detect/engine.go: the configuration, the context of a rule, and the rules' names.
use krnl_sentry.Base.{ℕ, ℤ, pos, ◌*◌, String, Bool, true, false, List, [], ◌∷◌, Option}
use krnl_sentry.Events.Event.{Event}
use krnl_sentry.Detect.Tracker.{ProcessHistory}

-- ProcLookup: the parent and the name of a process, read from outside the event stream.
abbrev pub ProcLookup : Type 0
ProcLookup = ℕ → Option (ℕ × String)

pub record StorylineConfig : Type 0 where
  pub enabled : Bool
  pub threshold : ℤ
  pub window : ℤ
  pub lookup : Option ProcLookup

-- StatFunc: the mode of a file, or none where the lookup fails.
abbrev pub StatFunc : Type 0
StatFunc = String → Option ℕ

-- Durations are in nanoseconds.
pub record Config : Type 0 where
  pub rev_shell_window : ℤ
  pub debugger_comms : List String
  pub ignore_loopback : Bool
  pub ignore_self_proc : Bool
  pub stat : StatFunc
  pub dedup_window : ℤ
  pub storyline : StorylineConfig
  pub self_pid : ℕ

abbrev pub second : ℕ
second = 1000000000

abbrev pub millisecond : ℕ
millisecond = 1000000

unfoldable pub default_storyline_config : StorylineConfig
default_storyline_config = record {
  enabled = true;
  threshold = pos 3;
  window = pos (600 * second);
  lookup = Option.none;
}

-- os.Stat and os.Getpid are arguments.
unfoldable pub default_config : StatFunc → ℕ → Config
unfolding default_storyline_config
default_config os_stat pid = record {
  rev_shell_window = pos (2 * second);
  debugger_comms = "gdb" ∷ "gdbserver" ∷ "strace" ∷ "ltrace" ∷ "lldb" ∷ "lldb-server" ∷ [];
  ignore_loopback = false;
  ignore_self_proc = false;
  stat = os_stat;
  dedup_window = pos (5 * second);
  storyline = default_storyline_config;
  self_pid = pid;
}

-- The history is none for a process with nothing recorded.
pub record Context : Type 0 where
  pub event : Event
  pub history : Option ProcessHistory
  pub config : Config

abbrev pub rule_name_privilege_escalation : String
rule_name_privilege_escalation = "privilege-escalation"

abbrev pub rule_name_sensitive_file : String
rule_name_sensitive_file = "sensitive-file-access"

abbrev pub rule_name_process_injection : String
rule_name_process_injection = "process-injection"

abbrev pub rule_name_reverse_shell : String
rule_name_reverse_shell = "reverse-shell"
