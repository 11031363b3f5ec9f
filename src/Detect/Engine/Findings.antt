-- ===== src/Detect/Engine/Findings.antt =====
-- Whose alerts the rules raise, and under which name.
use krnl_sentry.Base.{
  ℕ, pos, String, Bool, true, false, List, [], ◌∷◌, Option, none, some, ◌≡◌, refl, arith, inl, inr,
  ◌==◌, nat_eq, int_eq, string_eq, if◌then◌else◌, Bool-cases, Option-cases, unsigned64,
}
use krnl_sentry.Events.Event.{Event, Args}
use krnl_sentry.Detect.Alert.{Alert, Technique, Severity, new_alert}
use krnl_sentry.Detect.Config.{
  Context, rule_name_privilege_escalation, rule_name_sensitive_file, rule_name_process_injection,
  rule_name_reverse_shell,
}
use krnl_sentry.Detect.Tracker.{within}
use krnl_sentry.Detect.Privesc.{
  escalation, eval_setuid, eval_setresuid, eval_setgid, eval_setresgid, eval_capset, suid_bits,
  suid_alert, eval_suid_exec, eval_privilege_escalation,
}
use krnl_sentry.Detect.SensitiveFile.{
  SensitivePath, path_alert, report_path, first_match, proc_target_pid, sensitive_paths,
  eval_sensitive_file_access,
}
use krnl_sentry.Detect.SensitiveFile.Paths.{clean}
use krnl_sentry.Detect.Ptrace.{injection_alert, eval_ptrace_injection}
use krnl_sentry.Detect.Revshell.{
  ChainMatch, find_chain, note_chain, chain_report, eval_reverse_shell,
}

-- An alert about the process and the call of an event.
pub record IsAbout (ev : Event) (a : Alert) : Type 0 where
  pub pid : a.pid ≡ ev.pid
  pub ppid : a.ppid ≡ ev.ppid
  pub uid : a.uid ≡ ev.uid
  pub comm : a.comm ≡ ev.comm
  pub syscall : a.syscall ≡ ev.syscall
  pub timestamp : a.timestamp ≡ ev.wall

-- An alert of a rule about an event.
abbrev pub IsFinding : Event → String → Option Alert → Type 0
IsFinding ev name none = Unit
IsFinding ev name (some a) = IsAbout ev a × (a.rule ≡ name)

if-IsFinding :
    (b : Bool) (ev : Event) (name : String) (o p : Option Alert)
    → IsFinding ev name o
    → IsFinding ev name p
    → IsFinding ev name (if b then o else p)
if-IsFinding true ev name o p ho hp = ho
if-IsFinding false ev name o p ho hp = hp

new_alert-IsFinding :
    (ev : Event) (args : Args) (name : String) (tech : Technique) (sev : Severity) (desc : String)
    → IsFinding ev name (some (new_alert (record ev { args = args }) name tech sev desc))
unfolding new_alert
new_alert-IsFinding ev args name tech sev desc = (
  record { pid = refl; ppid = refl; uid = refl; comm = refl; syscall = refl; timestamp = refl },
  refl,
)

-- The alerts of the privilege rule's own calls.
escalation-IsFinding :
    (ev : Event) (desc : String)
    → IsFinding ev rule_name_privilege_escalation (some (escalation ev desc))
unfolding escalation
escalation-IsFinding ev desc =
    new_alert-IsFinding ev ev.args rule_name_privilege_escalation _ _ desc

eval_setuid-IsFinding : (ev : Event) → IsFinding ev rule_name_privilege_escalation (eval_setuid ev)
unfolding eval_setuid
eval_setuid-IsFinding ev = elim (Bool-cases (ev.arg0 == pos 0)) [
  | inl asks ↦ rw (asks, IsFinding) (escalation-IsFinding ev _)
  | inr other ↦ rw (other, IsFinding) tt
]

eval_setgid-IsFinding : (ev : Event) → IsFinding ev rule_name_privilege_escalation (eval_setgid ev)
unfolding eval_setgid
eval_setgid-IsFinding ev = elim (Bool-cases (ev.arg0 == pos 0)) [
  | inl asks ↦ rw (asks, IsFinding) (escalation-IsFinding ev _)
  | inr other ↦ rw (other, IsFinding) tt
]

eval_setresuid-IsFinding :
    (ev : Event) → IsFinding ev rule_name_privilege_escalation (eval_setresuid ev)
unfolding eval_setresuid escalation new_alert
eval_setresuid-IsFinding ev = ground arith

suid_alert-IsFinding :
    (ev : Event) (mode : ℕ) (bits : List String)
    → IsFinding ev rule_name_privilege_escalation (suid_alert ev mode bits)
unfolding suid_alert
suid_alert-IsFinding ev mode [] = tt
suid_alert-IsFinding ev mode (b ∷ more) =
    new_alert-IsFinding ev _ rule_name_privilege_escalation _ _ _

eval_setresgid-IsFinding :
    (ev : Event) → IsFinding ev rule_name_privilege_escalation (eval_setresgid ev)
unfolding eval_setresgid escalation new_alert
eval_setresgid-IsFinding ev = ground arith

eval_capset-IsFinding : (ev : Event) → IsFinding ev rule_name_privilege_escalation (eval_capset ev)
unfolding eval_capset
eval_capset-IsFinding ev = escalation-IsFinding ev _

eval_suid_exec-IsFinding :
    (c : Context) → IsFinding c.event rule_name_privilege_escalation (eval_suid_exec c)
unfolding eval_suid_exec
eval_suid_exec-IsFinding c = elim (Option-cases (c.config.stat (Event.path c.event))) [
  | inl missing ↦ ground (arith, missing)
  | inr (mode, found) ↦ ground (arith, found, suid_alert-IsFinding c.event mode (suid_bits mode))
]

pub eval_privilege_escalation-IsFinding :
    (c : Context) → IsFinding c.event rule_name_privilege_escalation (eval_privilege_escalation c)
unfolding eval_privilege_escalation
eval_privilege_escalation-IsFinding c =
    let ev = c.event in
    ground (
      arith,
      eval_setuid-IsFinding ev,
      eval_setgid-IsFinding ev,
      eval_setresuid-IsFinding ev,
      eval_setresgid-IsFinding ev,
      eval_capset-IsFinding ev,
      eval_suid_exec-IsFinding c,
    )

report_path-IsFinding :
    (c : Context) (target : Option String) (sp : SensitivePath)
    → IsFinding c.event rule_name_sensitive_file (report_path c target sp)
unfolding report_path path_alert new_alert
report_path-IsFinding c none sp = ground arith
report_path-IsFinding c (some target) sp = ground arith

first_match-IsFinding :
    (c : Context) (p : String) (watched : List SensitivePath)
    → IsFinding c.event rule_name_sensitive_file (first_match c p watched)
unfolding first_match
first_match-IsFinding c p [] = tt
first_match-IsFinding c p (sp ∷ rest) =
    let here = report_path-IsFinding c (proc_target_pid p) sp in
    let later = first_match-IsFinding c p rest in
    elim (Bool-cases (sp.matches p)) [
      | inl yes_ ↦ rw (yes_, IsFinding) here
      | inr no_ ↦ rw (no_, IsFinding) later
    ]

pub eval_sensitive_file_access-IsFinding :
    (c : Context) → IsFinding c.event rule_name_sensitive_file (eval_sensitive_file_access c)
unfolding eval_sensitive_file_access
eval_sensitive_file_access-IsFinding c =
    ground (arith, first_match-IsFinding c (clean (Event.path c.event)) sensitive_paths)

chain_report-IsFinding :
    (ev : Event) (m : ChainMatch) → IsFinding ev rule_name_reverse_shell (some (chain_report ev m))
unfolding chain_report note_chain new_alert
chain_report-IsFinding ev m = ground arith

pub eval_reverse_shell-IsFinding :
    (c : Context) → IsFinding c.event rule_name_reverse_shell (eval_reverse_shell c)
unfolding eval_reverse_shell
eval_reverse_shell-IsFinding c =
    let window = unsigned64 c.config.rev_shell_window in
    elim (Option-cases (find_chain (within c.history (Event.timestamp c.event) window))) [
      | inl missing ↦ ground (arith, missing)
      | inr (m, found) ↦ ground (arith, found, chain_report-IsFinding c.event m)
    ]

pub eval_ptrace_injection-IsFinding :
    (c : Context) → IsFinding c.event rule_name_process_injection (eval_ptrace_injection c)
unfolding eval_ptrace_injection injection_alert new_alert
eval_ptrace_injection-IsFinding c = ground arith
