-- ===== src/Tests/Rules.antt =====
-- The rules' properties at events that they alert on.
use krnl_sentry.Base.{true, false, some, ◌≡◌, ◌≢◌, ◌↔◌, refl, arith, is_set, pos, nat_eq}
use krnl_sentry.Events.Event.{Event}
use krnl_sentry.Events.Syscall.{
  sys_unknown, sys_ptrace, sys_openat, sys_connect, is_execution, syscall_names, parse_syscall,
}
use krnl_sentry.Events.Syscall.Names.{parse_syscall_iff}
use krnl_sentry.Dict.{lookup}
use krnl_sentry.Detect.Config.{Context}
use krnl_sentry.Detect.Revshell.{find_chain, eval_reverse_shell}
use krnl_sentry.Detect.Revshell.Chain.{IsChain, find_chain_iff}
use krnl_sentry.Detect.Revshell.Rule.{IsIgnored, recent_calls, eval_reverse_shell_iff}
use krnl_sentry.Detect.Privesc.{eval_privilege_escalation}
use krnl_sentry.Detect.Privesc.Conditions.{AsksRoot, eval_privilege_escalation_iff}
use krnl_sentry.Detect.Ptrace.{eval_ptrace_injection}
use krnl_sentry.Detect.Ptrace.Conditions.{TakesOver, IsListed, eval_ptrace_injection_iff}
use krnl_sentry.Detect.SensitiveFile.{sensitive_paths, proc_target_pid, eval_sensitive_file_access}
use krnl_sentry.Detect.SensitiveFile.Watched.{IsWatched, IsSelf, eval_sensitive_file_access_iff}
use krnl_sentry.Detect.SensitiveFile.Paths.{clean}
use krnl_sentry.Detect.Tracker.Window.{IsOrdered}
use krnl_sentry.Tests.Data.{
  setuid_event, attach_event, memory_event, exec_event, shell_calls, shell_history, context_of,
}

find_chain_iff_example : (is_set (find_chain shell_calls) ≡ true) ↔ IsChain shell_calls
find_chain_iff_example = find_chain_iff shell_calls

shell_calls-IsOrdered : IsOrdered shell_calls
shell_calls-IsOrdered = ground arith

eval_reverse_shell_iff_example : (is_set (eval_reverse_shell (context_of exec_event)) ≡ true) ↔ (
    (false ≡ false)
    × (is_execution 1 ≡ true)
    × IsChain (recent_calls (context_of exec_event) shell_history)
    × (¬ IsIgnored
        (Context.config (context_of exec_event)).ignore_loopback
        (find_chain (recent_calls (context_of exec_event) shell_history))))
eval_reverse_shell_iff_example =
    eval_reverse_shell_iff (context_of exec_event) shell_history refl shell_calls-IsOrdered

eval_privilege_escalation_iff_example :
    (is_set (eval_privilege_escalation (context_of setuid_event)) ≡ true)
    ↔ ((false ≡ false) × (Event.uid setuid_event ≢ 0) × AsksRoot (context_of setuid_event))
eval_privilege_escalation_iff_example = eval_privilege_escalation_iff (context_of setuid_event)

eval_ptrace_injection_iff_example :
    (is_set (eval_ptrace_injection (context_of attach_event)) ≡ true) ↔ (
      (false ≡ false)
      × (8 ≡ sys_ptrace)
      × TakesOver (pos 16)
      × (pos 77 ≢ pos 1000)
      × (¬ IsListed "testproc" (Context.config (context_of attach_event)).debugger_comms))
eval_ptrace_injection_iff_example = eval_ptrace_injection_iff (context_of attach_event)

eval_sensitive_file_access_iff_example :
    (is_set (eval_sensitive_file_access (context_of memory_event)) ≡ true) ↔ (
      (false ≡ false)
      × (3 ≡ sys_openat)
      × (Event.path memory_event ≢ "")
      × IsWatched (clean "/proc/77/./mem") sensitive_paths
      × (¬ (
          IsSelf memory_event (proc_target_pid (clean "/proc/77/./mem"))
          × ((Context.config (context_of memory_event)).ignore_self_proc ≡ true))))
eval_sensitive_file_access_iff_example = eval_sensitive_file_access_iff (context_of memory_event)

parse_syscall_iff_example :
    (parse_syscall "connect" ≡ some sys_connect)
    ↔ ((lookup sys_connect syscall_names ≡ some "connect") × (sys_connect ≢ sys_unknown))
parse_syscall_iff_example = parse_syscall_iff "connect" sys_connect

connect_named : lookup sys_connect syscall_names ≡ some "connect"
unfolding lookup syscall_names
connect_named = refl

connect_parsed : parse_syscall "connect" ≡ some sys_connect
connect_parsed = (parse_syscall_iff "connect" sys_connect).1 (connect_named, ground arith)
