-- ===== src/Detect/Privesc/Conditions.antt =====
-- When the rule on privilege escalation alerts.
use krnl_sentry.Base.{
  ℕ, pos, String, true, false, Option, none, some, ◌≡◌, ◌≢◌, ◌⊎◌, ◌↔◌, refl, bit_and, arith, inl,
  inr, int_eq, nat_eq, string_eq, ◌==◌, eq_iff, int_beq_iff, nat_beq_iff, Bool-cases, ap,
  Option-cases, is_set, has_prefix,
}
use krnl_sentry.Events.Syscall.{
  sys_setuid, sys_setgid, sys_setresuid, sys_setresgid, sys_capset, is_execution,
}
use krnl_sentry.Events.Event.{Event}
use krnl_sentry.Detect.Config.{Context}
use krnl_sentry.Detect.Privesc.{
  eval_setuid, requested_ids, eval_setresuid, eval_setgid, eval_setresgid, eval_capset, mode_setuid,
  mode_setgid, suid_bits, suid_alert, eval_suid_exec, eval_privilege_escalation,
}

-- One of the three ids of a setres*id call is to become 0.
abbrev pub AsksThree : Event → Type 0
AsksThree ev = (ev.arg0 ≡ pos 0) ⊎ (ev.arg1 ≡ pos 0) ⊎ (ev.arg2 ≡ pos 0)

-- The file at an absolute path is there, with its setuid or setgid bit set.
abbrev pub IsElevated : Option ℕ → Type 0
IsElevated none = ⊥
IsElevated (some mode) = (bit_and mode mode_setuid ≢ 0) ⊎ (bit_and mode mode_setgid ≢ 0)

-- What a process asks for that only root may give.
abbrev pub AsksRoot : Context → Type 0
AsksRoot c =
    let ev = c.event in
    ((ev.syscall_id ≡ sys_setuid) × (ev.arg0 ≡ pos 0))
    ⊎ ((ev.syscall_id ≡ sys_setresuid) × AsksThree ev)
    ⊎ ((ev.syscall_id ≡ sys_setgid) × (ev.arg0 ≡ pos 0))
    ⊎ ((ev.syscall_id ≡ sys_setresgid) × AsksThree ev)
    ⊎ (ev.syscall_id ≡ sys_capset)
    ⊎ ((is_execution ev.syscall_id ≡ true)
        × (has_prefix ev.path "/" ≡ true)
        × IsElevated (c.config.stat ev.path))

eval_setuid_iff : (ev : Event) → (is_set (eval_setuid ev) ≡ true) ↔ (Event.arg0 ev ≡ pos 0)
unfolding eval_setuid
eval_setuid_iff ev =
    let e = int_beq_iff ev.arg0 (pos 0) in (λ h. ground (arith, e), λ h. ground (arith, e))

eval_setgid_iff : (ev : Event) → (is_set (eval_setgid ev) ≡ true) ↔ (Event.arg0 ev ≡ pos 0)
unfolding eval_setgid
eval_setgid_iff ev =
    let e = int_beq_iff ev.arg0 (pos 0) in (λ h. ground (arith, e), λ h. ground (arith, e))

eval_setresuid_iff : (ev : Event) → (is_set (eval_setresuid ev) ≡ true) ↔ AsksThree ev
unfolding eval_setresuid requested_ids
eval_setresuid_iff ev = (λ h. ground arith, λ h. ground arith)

eval_setresgid_iff : (ev : Event) → (is_set (eval_setresgid ev) ≡ true) ↔ AsksThree ev
unfolding eval_setresgid requested_ids
eval_setresgid_iff ev = (λ h. ground arith, λ h. ground arith)

suid_alert_iff :
    (ev : Event) (mode : ℕ)
    → (is_set (suid_alert ev mode (suid_bits mode)) ≡ true) ↔ IsElevated (some mode)
unfolding suid_alert suid_bits
suid_alert_iff ev mode =
    let u = nat_beq_iff (bit_and mode mode_setuid) 0 in
    let g = nat_beq_iff (bit_and mode mode_setgid) 0 in
    (λ h. ground (arith, u, g), λ h. ground (arith, u, g))

-- No rooted path is empty.
rooted_nonempty : (path : String) → has_prefix path "/" ≡ true → (path == "") ≡ false
unfolding has_prefix
rooted_nonempty path h = elim (Bool-cases (path == "")) [
  | inl empty ↦ absurd (ground (arith, h, ap (λ p. has_prefix p "/") ((eq_iff path "").0 empty)))
  | inr differs ↦ differs
]

eval_capset_set : (ev : Event) → is_set (eval_capset ev) ≡ true
unfolding eval_capset
eval_capset_set ev = refl

eval_suid_exec_iff :
    (c : Context)
    → (is_set (eval_suid_exec c) ≡ true) ↔ (
        (has_prefix (Event.path c.event) "/" ≡ true)
        × IsElevated (c.config.stat (Event.path c.event)))
unfolding eval_suid_exec
eval_suid_exec_iff c =
    let ev = c.event in
    let rooted = rooted_nonempty ev.path in
    elim (Option-cases (c.config.stat ev.path)) [
      | inl missing ↦ (λ h. ground (arith, missing, rooted), λ h. ground (arith, missing, rooted))
      | inr (mode, found) ↦
          let iff = suid_alert_iff ev mode in
          (λ h. ground (arith, found, rooted, iff), λ h. ground (arith, found, rooted, iff))
    ]

-- The rule alerts exactly on the entry of a call by a process that is not root, which asks for a
-- user or group id of 0, sets capabilities, or runs a file at an absolute path whose setuid or
-- setgid bit is set.
pub eval_privilege_escalation_iff :
    (c : Context)
    → (is_set (eval_privilege_escalation c) ≡ true)
      ↔ ((Event.is_exit c.event ≡ false) × (Event.uid c.event ≢ 0) × AsksRoot c)
unfolding eval_privilege_escalation
eval_privilege_escalation_iff c =
    let ev = c.event in
    let uid = eval_setuid_iff ev in
    let gid = eval_setgid_iff ev in
    let ruid = eval_setresuid_iff ev in
    let rgid = eval_setresgid_iff ev in
    let caps = eval_capset_set ev in
    let exec = eval_suid_exec_iff c in
    (
      λ h. ground (arith, uid, gid, ruid, rgid, exec, caps),
      λ h. ground (arith, uid, gid, ruid, rgid, exec, caps),
    )
