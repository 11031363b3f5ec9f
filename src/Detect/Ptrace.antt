-- ===== src/Detect/Ptrace.antt =====
-- detect/ptrace.go: the rule on ptrace requests that take over another process.
pub mod Conditions
use krnl_sentry.Base.{
  ℕ, ℤ, pos, String, Bool, true, false, ◌||◌, not, List, [], ◌∷◌, Option, none, some, ◌==◌, nat_eq,
  int_eq, string_eq, if◌then◌else◌, concat, format_int,
}
use krnl_sentry.Dict.{lookup}
use krnl_sentry.Events.Syscall.{sys_ptrace}
use krnl_sentry.Events.Constants.{
  ptrace_request_name, ptrace_attach, ptrace_seize, ptrace_poketext, ptrace_pokedata,
  ptrace_pokeuser, ptrace_setregs, ptrace_setregset, ptrace_setfpregs,
}
use krnl_sentry.Events.Event.{Event, set_arg}
use krnl_sentry.Detect.Alert.{Alert, new_alert, proc_label, severity_high, tech_ptrace_injection}
use krnl_sentry.Detect.Config.{Context, rule_name_process_injection}

unfoldable pub injection_requests : List (ℤ × String)
injection_requests =
    (ptrace_attach, "attaching to another process")
    ∷ (ptrace_seize, "seizing another process")
    ∷ (ptrace_poketext, "writing to another process's text segment")
    ∷ (ptrace_pokedata, "writing to another process's data segment")
    ∷ (ptrace_pokeuser, "writing to another process's user area")
    ∷ (ptrace_setregs, "overwriting another process's registers")
    ∷ (ptrace_setregset, "overwriting another process's registers")
    ∷ (ptrace_setfpregs, "overwriting another process's FP registers")
    ∷ []

unfoldable pub is_known_debugger : String → List String → Bool
is_known_debugger comm [] = false
is_known_debugger comm (name ∷ rest) = comm == name || is_known_debugger comm rest

-- The alert on a request with the given action.
unfoldable pub injection_alert : Event → String → Alert
injection_alert ev action =
    new_alert (set_arg "action" action ev) rule_name_process_injection tech_ptrace_injection
      severity_high
      (concat (
        "Process "
        ∷ proc_label ev
        ∷ " called ptrace("
        ∷ ptrace_request_name ev.arg0
        ∷ ") against PID "
        ∷ format_int ev.arg1
        ∷ " — "
        ∷ action
        ∷ ", possible process injection"
        ∷ []))

unfoldable pub eval_ptrace_injection : Context → Option Alert
eval_ptrace_injection c =
    let ev = c.event in
    if ev.is_exit || not (ev.syscall_id == sys_ptrace)
    then none
    else elim (lookup ev.arg0 injection_requests) [
      | none ↦ none
      | some action ↦
          if ev.arg1 == pos ev.pid
          then none
          else if is_known_debugger ev.comm c.config.debugger_comms
          then none
          else some (injection_alert ev action)
    ]
