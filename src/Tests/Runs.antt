-- ===== src/Tests/Runs.antt =====
-- What the rules say at single events: an alert on each attack, and none on its harmless variant.
use krnl_sentry.Base.{true, false, pos, [], ◌∷◌, ◌≡◌, refl, is_set, concat, join, has_prefix}
use krnl_sentry.Dict.{lookup, insert}
use krnl_sentry.Events.Constants.{std_fd_name}
use krnl_sentry.Detect.Config.{default_config}
use krnl_sentry.Detect.Revshell.{
  find_chain, anchors, anchor_step, redirections, redirect_step, redirected_after,
}
use krnl_sentry.Detect.Privesc.{eval_privilege_escalation, eval_setuid}
use krnl_sentry.Detect.Ptrace.{eval_ptrace_injection, injection_requests, is_known_debugger}
use krnl_sentry.Detect.SensitiveFile.Paths.{clean, glob}
use krnl_sentry.Tests.Data.{entry, shell_calls, setuid_event, attach_event, context_of}

shell_found : is_set (find_chain shell_calls) ≡ true
unfolding find_chain anchors anchor_step redirections redirect_step redirected_after std_fd_name
    insert
shell_found = refl

-- The connect comes before the socket.
connect_first_ignored :
    is_set (
      find_chain (
        entry 10 1000000 (pos 3) (pos 0)
        ∷ entry 9 2000000 (pos 2) (pos 1)
        ∷ entry 12 3000000 (pos 3) (pos 0)
        ∷ entry 12 4000000 (pos 3) (pos 1)
        ∷ []))
    ≡ false
unfolding find_chain anchors anchor_step redirections redirect_step redirected_after std_fd_name
    insert
connect_first_ignored = refl

setuid_alerted : is_set (eval_privilege_escalation (context_of setuid_event)) ≡ true
unfolding eval_privilege_escalation eval_setuid
setuid_alerted = refl

-- Root may do that.
root_ignored :
    is_set (eval_privilege_escalation (context_of (record setuid_event { uid = 0 }))) ≡ false
unfolding eval_privilege_escalation
root_ignored = refl

attach_alerted : is_set (eval_ptrace_injection (context_of attach_event)) ≡ true
unfolding eval_ptrace_injection injection_requests is_known_debugger lookup default_config
attach_alerted = refl

debugger_ignored :
    is_set (eval_ptrace_injection (context_of (record attach_event { comm = "gdb" }))) ≡ false
unfolding eval_ptrace_injection injection_requests is_known_debugger lookup default_config
debugger_ignored = refl

dots_cleaned : clean "/etc/./x/..//shadow" ≡ "/etc/shadow"
unfolding clean has_prefix concat join
dots_cleaned = refl

deeper_unmatched : glob "/proc/*/mem" "/proc/1234/task/5/mem" ≡ false
unfolding glob
deeper_unmatched = refl
