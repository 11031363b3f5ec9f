-- ===== src/Detect/SensitiveFile.antt =====
-- detect/sensitivefile.go: the rule on opened paths, with what it takes of path.Clean and
-- path.Match (patterns of plain characters and `*`).
pub mod Paths
pub mod Watched
use krnl_sentry.Base.{
  ℕ, ◌<◌, ltb, String, Bool, true, false, ◌&&◌, ◌||◌, not, List, [], ◌∷◌, Option, none, some, ◌==◌,
  nat_eq, string_eq, if◌then◌else◌, concat, quote, has_prefix, contains, trim_prefix, before_byte,
  format_uint,
}
use Prim.Native.String.{len}
use krnl_sentry.Events.Syscall.{sys_openat}
use krnl_sentry.Events.Event.{Event, set_arg}
use krnl_sentry.Detect.Alert.{
  Alert, Severity, Technique, new_alert, proc_label, severity_high, severity_medium,
  tech_etc_shadow, tech_proc_filesystem, tech_unsecured_creds, tech_private_keys,
  tech_creds_in_files,
}
use krnl_sentry.Detect.Config.{Context, rule_name_sensitive_file}
use Paths.{clean, glob}

-- An entry of the watch list.
pub record SensitivePath : Type 0 where
  pub label : String
  pub matches : String → Bool
  pub severity : Severity
  pub technique : Technique
  pub reason : String

unfoldable pub exact_any : List String → String → Bool
exact_any [] p = false
exact_any (want ∷ rest) p = p == want || exact_any rest p

unfoldable pub prefix_match : String → String → Bool
prefix_match prefix p = has_prefix p prefix && ltb (len prefix) (len p)

unfoldable pub contains_any : List String → String → Bool
contains_any [] p = false
contains_any (frag ∷ rest) p = contains p frag || contains_any rest p

-- path.Match on a well-formed pattern.
unfoldable pub glob_path : String → String → Bool
glob_path pattern p = glob pattern p

unfoldable pub sensitive_paths : List SensitivePath
sensitive_paths =
    record {
      label = "/etc/shadow";
      matches = exact_any ("/etc/shadow" ∷ "/etc/shadow-" ∷ "/etc/gshadow" ∷ "/etc/gshadow-" ∷ []);
      severity = severity_high;
      technique = tech_etc_shadow;
      reason = "password hash database";
    }
    ∷ record {
      label = "/proc/<pid>/mem";
      matches = glob_path "/proc/*/mem";
      severity = severity_high;
      technique = tech_proc_filesystem;
      reason = "direct process memory access";
    }
    ∷ record {
      label = "/proc/<pid>/maps";
      matches = glob_path "/proc/*/maps";
      severity = severity_medium;
      technique = tech_proc_filesystem;
      reason = "process memory layout enumeration";
    }
    ∷ record {
      label = "/etc/sudoers";
      matches = exact_any ("/etc/sudoers" ∷ []);
      severity = severity_medium;
      technique = tech_unsecured_creds;
      reason = "sudo policy";
    }
    ∷ record {
      label = "/etc/sudoers.d/*";
      matches = prefix_match "/etc/sudoers.d/";
      severity = severity_medium;
      technique = tech_unsecured_creds;
      reason = "sudo policy fragment";
    }
    ∷ record {
      label = "~/.ssh private key";
      matches = contains_any (
          "/.ssh/id_rsa" ∷ "/.ssh/id_dsa" ∷ "/.ssh/id_ecdsa" ∷ "/.ssh/id_ed25519" ∷ "/.ssh/identity"
          ∷ []);
      severity = severity_medium;
      technique = tech_private_keys;
      reason = "SSH private key";
    }
    ∷ record {
      label = "~/.aws/credentials";
      matches = contains_any ("/.aws/credentials" ∷ []);
      severity = severity_medium;
      technique = tech_creds_in_files;
      reason = "cloud provider credentials";
    }
    ∷ record {
      label = "~/.gnupg secret keyring";
      matches = contains_any ("/.gnupg/secring" ∷ "/.gnupg/private-keys-v1.d/" ∷ []);
      severity = severity_medium;
      technique = tech_private_keys;
      reason = "GnuPG private keyring";
    }
    ∷ record {
      label = "~/.docker/config.json";
      matches = contains_any ("/.docker/config.json" ∷ []);
      severity = severity_medium;
      technique = tech_creds_in_files;
      reason = "container registry credentials";
    }
    ∷ record {
      label = "~/.kube/config";
      matches = contains_any ("/.kube/config" ∷ []);
      severity = severity_medium;
      technique = tech_creds_in_files;
      reason = "Kubernetes cluster credentials";
    }
    ∷ []

-- procTargetPID: the <pid> of /proc/<pid>/..., if the path has that shape.
unfoldable pub proc_target_pid : String → Option String
proc_target_pid p =
    let rest = trim_prefix p "/proc/" in
    let target = before_byte b'/' rest in
    if has_prefix p "/proc/" && contains rest "/" && not (target == "") then some target else none

-- The alert on an entry of the watch list.
unfoldable pub path_alert : Event → SensitivePath → Alert
path_alert ev sp =
    new_alert (set_arg "matched_pattern" sp.label ev) rule_name_sensitive_file sp.technique
      sp.severity
      (concat (
        "Process "
        ∷ proc_label ev
        ∷ " opened "
        ∷ quote ev.path
        ∷ " ("
        ∷ sp.reason
        ∷ ") — possible credential or memory access"
        ∷ []))

-- What the loop returns at an entry that matches.
unfoldable pub report_path : Context → Option String → SensitivePath → Option Alert
report_path c none sp = some (path_alert c.event sp)
report_path c (some target) sp =
    let ev = c.event in
    let self = target == "self" || target == format_uint ev.pid in
    if self && c.config.ignore_self_proc
    then none
    else some (
        path_alert
          (set_arg "target_pid" target (if self then set_arg "target_self" "true" ev else ev)) sp)

-- The loop over the watch list: the first entry that matches decides.
unfoldable pub first_match : Context → String → List SensitivePath → Option Alert
first_match c p [] = none
first_match c p (sp ∷ rest) =
    let later = first_match c p rest in
    if sp.matches p then report_path c (proc_target_pid p) sp else later

unfoldable pub eval_sensitive_file_access : Context → Option Alert
eval_sensitive_file_access c =
    let ev = c.event in
    if ev.is_exit || not (ev.syscall_id == sys_openat)
    then none
    else if ev.path == ""
    then none
    else first_match c (clean ev.path) sensitive_paths
