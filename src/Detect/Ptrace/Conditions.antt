-- ===== src/Detect/Ptrace/Conditions.antt =====
-- When the ptrace rule alerts.
use krnl_sentry.Base.{
  ℤ, pos, String, true, false, List, [], ◌∷◌, ◌≡◌, ◌≢◌, ◌⊎◌, ◌↔◌, arith, int_eq, nat_eq, string_eq,
  eq_iff, nat_beq_iff, int_beq_iff, is_set,
}
use krnl_sentry.Dict.{lookup}
use krnl_sentry.Events.Syscall.{sys_ptrace}
use krnl_sentry.Events.Event.{Event}
use krnl_sentry.Detect.Config.{Context}
use krnl_sentry.Detect.Ptrace.{injection_requests, is_known_debugger, eval_ptrace_injection}

-- The requests that attach to another process, or write into it.
abbrev pub TakesOver : ℤ → Type 0
TakesOver req =
    (req ≡ pos 4)
    ⊎ (req ≡ pos 5)
    ⊎ (req ≡ pos 6)
    ⊎ (req ≡ pos 13)
    ⊎ (req ≡ pos 15)
    ⊎ (req ≡ pos 16)
    ⊎ (req ≡ pos 0x4205)
    ⊎ (req ≡ pos 0x4206)

-- A name in the list.
abbrev pub IsListed : String → List String → Type 0
IsListed comm [] = ⊥
IsListed comm (name ∷ rest) = (comm ≡ name) ⊎ IsListed comm rest

is_known_debugger_iff :
    (comm : String) (names : List String)
    → (is_known_debugger comm names ≡ true) ↔ IsListed comm names
unfolding is_known_debugger
is_known_debugger_iff comm [] = (λ h. cc, λ h. elim h [ ])
is_known_debugger_iff comm (name ∷ rest) =
    let ih = is_known_debugger_iff comm rest in
    (λ h. ground (arith, eq_iff comm name, ih), λ h. ground (arith, eq_iff comm name, ih))

injection_requests_iff : (req : ℤ) → (is_set (lookup req injection_requests) ≡ true) ↔ TakesOver req
unfolding injection_requests lookup
injection_requests_iff req = (λ h. ground arith, λ h. ground arith)

-- The rule alerts exactly on the entry of a ptrace call that takes over a process other than the
-- caller, by a program that is not one of the debuggers of the configuration.
pub eval_ptrace_injection_iff :
    (c : Context)
    → (is_set (eval_ptrace_injection c) ≡ true) ↔ (
        (Event.is_exit c.event ≡ false)
        × (Event.syscall_id c.event ≡ sys_ptrace)
        × TakesOver (Event.arg0 c.event)
        × (Event.arg1 c.event ≢ pos (Event.pid c.event))
        × (¬ IsListed (Event.comm c.event) c.config.debugger_comms))
unfolding eval_ptrace_injection
eval_ptrace_injection_iff c =
    let ev = c.event in
    let req = injection_requests_iff ev.arg0 in
    let dbg = is_known_debugger_iff ev.comm c.config.debugger_comms in
    let sc = nat_beq_iff ev.syscall_id sys_ptrace in
    let self = int_beq_iff ev.arg1 (pos ev.pid) in
    (λ h. ground (arith, req, dbg, sc, self), λ h. ground (arith, req, dbg, sc, self))
