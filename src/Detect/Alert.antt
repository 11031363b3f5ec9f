-- ===== src/Detect/Alert.antt =====
-- detect/alert.go: severities, techniques and the alert.
use krnl_sentry.Base.{
  ℕ, ℤ, String, Bool, List, [], ◌∷◌, none, some, ◌==◌, string_eq, nat_eq, if◌then◌else◌, concat,
  format_uint, quote,
}
use krnl_sentry.Dict.{lookup}
use krnl_sentry.Events.Event.{Event, Args}

abbrev pub Severity : Type 0
Severity = ℕ

abbrev pub severity_low : Severity
severity_low = 0

abbrev pub severity_medium : Severity
severity_medium = 1

abbrev pub severity_high : Severity
severity_high = 2

abbrev pub severity_critical : Severity
severity_critical = 3

unfoldable pub severity_names : List (Severity × String)
severity_names =
    (severity_low, "LOW")
    ∷ (severity_medium, "MEDIUM")
    ∷ (severity_high, "HIGH")
    ∷ (severity_critical, "CRITICAL")
    ∷ []

-- Severity.String, which MarshalText writes too.
unfoldable pub severity_string : Severity → String
severity_string s = elim (lookup s severity_names) [ some name ↦ name | none ↦ "UNKNOWN" ]

-- The loop of ParseSeverity. No name stands twice, so the order does not matter.
unfoldable pub parse_severity_from : String → List (Severity × String) → Severity × Bool
parse_severity_from s [] = (severity_low, Bool.false)
parse_severity_from s ((sev, name) ∷ rest) =
    if name == s then (sev, Bool.true) else parse_severity_from s rest

unfoldable pub parse_severity : String → Severity × Bool
parse_severity s = parse_severity_from s severity_names

pub record Technique : Type 0 where
  pub id : String
  pub name : String

abbrev pub tech_abuse_elevation : Technique
tech_abuse_elevation = record { id = "T1548"; name = "Abuse Elevation Control Mechanism" }

abbrev pub tech_exploit_priv_esc : Technique
tech_exploit_priv_esc = record { id = "T1068"; name = "Exploitation for Privilege Escalation" }

abbrev pub tech_credential_dump : Technique
tech_credential_dump = record { id = "T1003"; name = "OS Credential Dumping" }

abbrev pub tech_process_injection : Technique
tech_process_injection = record { id = "T1055"; name = "Process Injection" }

abbrev pub tech_app_layer_protocol : Technique
tech_app_layer_protocol = record { id = "T1071"; name = "Application Layer Protocol" }

abbrev pub tech_setuid_setgid : Technique
tech_setuid_setgid = record {
  id = "T1548.001";
  name = "Abuse Elevation Control Mechanism: Setuid and Setgid";
}

abbrev pub tech_etc_shadow : Technique
tech_etc_shadow = record {
  id = "T1003.008";
  name = "OS Credential Dumping: /etc/passwd and /etc/shadow";
}

abbrev pub tech_proc_filesystem : Technique
tech_proc_filesystem = record { id = "T1003.007"; name = "OS Credential Dumping: Proc Filesystem" }

abbrev pub tech_unsecured_creds : Technique
tech_unsecured_creds = record { id = "T1552"; name = "Unsecured Credentials" }

abbrev pub tech_creds_in_files : Technique
tech_creds_in_files = record {
  id = "T1552.001";
  name = "Unsecured Credentials: Credentials In Files";
}

abbrev pub tech_private_keys : Technique
tech_private_keys = record { id = "T1552.004"; name = "Unsecured Credentials: Private Keys" }

abbrev pub tech_ptrace_injection : Technique
tech_ptrace_injection = record { id = "T1055.008"; name = "Process Injection: Ptrace System Calls" }

abbrev pub tech_command_interpreter : Technique
tech_command_interpreter = record { id = "T1059"; name = "Command and Scripting Interpreter" }

-- One alert's contribution to a storyline (detect/storyline.go), with its unexported mark.
pub record StoryStep : Type 0 where
  pub offset_ms : ℤ
  pub pid : ℕ
  pub comm : String
  pub rule : String
  pub mitre_id : String
  pub tactic : String
  pub summary : String
  pub pivotal : Bool

pub record Alert : Type 0 where
  pub timestamp : ℤ
  pub pid : ℕ
  pub tid : ℕ
  pub ppid : ℕ
  pub comm : String
  pub uid : ℕ
  pub gid : ℕ
  pub syscall : String
  pub args : Args
  pub mitre_id : String
  pub mitre_technique : String
  pub severity : Severity
  pub description : String
  pub rule : String
  pub storyline : String
  pub suppressed : ℕ
  pub story : List StoryStep

unfoldable pub new_alert : Event → String → Technique → Severity → String → Alert
new_alert ev rule tech sev desc = record {
  timestamp = ev.wall;
  pid = ev.pid;
  tid = ev.tid;
  ppid = ev.ppid;
  comm = ev.comm;
  uid = ev.uid;
  gid = ev.gid;
  syscall = ev.syscall;
  args = ev.args;
  mitre_id = tech.id;
  mitre_technique = tech.name;
  severity = sev;
  description = desc;
  rule = rule;
  storyline = "";
  suppressed = 0;
  story = [];
}

-- procLabel (detect/privesc.go): "%q (PID %d, UID %d)".
pub proc_label : Event → String
proc_label ev =
    concat
      (quote ev.comm ∷ " (PID " ∷ format_uint ev.pid ∷ ", UID " ∷ format_uint ev.uid ∷ ")" ∷ [])
