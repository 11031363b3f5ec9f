-- ===== src/Detect/Privesc.antt =====
-- detect/privesc.go: the rule on processes that try to become root. A file mode is the uint32 of
-- an fs.FileMode.
pub mod Conditions
use krnl_sentry.Base.{
  ℕ, ◌^◌, ℤ, pos, negsuc, String, Bool, true, false, ◌||◌, not, List, [], ◌∷◌, ◌++◌, Option, none,
  some, ◌==◌, nat_eq, int_eq, string_eq, if◌then◌else◌, concat, join, quote, has_prefix, bit_and,
  format_base,
}
use krnl_sentry.Events.Syscall.{
  Syscall, sys_setuid, sys_setgid, sys_setresuid, sys_setresgid, sys_capset, is_execution,
}
use krnl_sentry.Events.Event.{Event, set_arg}
use krnl_sentry.Detect.Alert.{
  Alert, new_alert, proc_label, severity_high, tech_abuse_elevation, tech_setuid_setgid,
}
use krnl_sentry.Detect.Config.{Context, rule_name_privilege_escalation}

-- The (uid_t)-1 that leaves an id alone.
abbrev pub uid_unchanged : ℤ
uid_unchanged = negsuc 0

unfoldable pub escalation : Event → String → Alert
escalation ev desc =
    new_alert ev rule_name_privilege_escalation tech_abuse_elevation severity_high desc

unfoldable pub eval_setuid : Event → Option Alert
unfolding escalation
eval_setuid ev =
    if ev.arg0 == pos 0
    then some (
        escalation ev (
          concat (
            "Process "
            ∷ proc_label ev
            ∷ " called setuid(0) — possible privilege escalation attempt"
            ∷ [])))
    else none

-- The loop over the targets: the names of the ids that are to become 0.
unfoldable pub requested_ids : List (String × ℤ) → List String
requested_ids [] = []
requested_ids ((name, value) ∷ rest) =
    if value == uid_unchanged
    then requested_ids rest
    else if value == pos 0
    then name ∷ requested_ids rest
    else requested_ids rest

unfoldable pub eval_setresuid : Event → Option Alert
unfolding escalation
eval_setresuid ev =
    elim (requested_ids (("ruid", ev.arg0) ∷ ("euid", ev.arg1) ∷ ("suid", ev.arg2) ∷ [])) [
      | [] ↦ none
      | name ∷ more ↦ some (
          escalation ev (
            concat (
              "Process "
              ∷ proc_label ev
              ∷ " called setresuid() requesting root for "
              ∷ join ", " (name ∷ more)
              ∷ " — possible privilege escalation attempt"
              ∷ [])))
    ]

unfoldable pub eval_setgid : Event → Option Alert
unfolding escalation
eval_setgid ev =
    if ev.arg0 == pos 0
    then some (
        escalation ev (
          concat (
            "Process "
            ∷ proc_label ev
            ∷ " called setgid(0) — possible privilege escalation attempt"
            ∷ [])))
    else none

unfoldable pub eval_setresgid : Event → Option Alert
unfolding escalation
eval_setresgid ev =
    elim (requested_ids (("rgid", ev.arg0) ∷ ("egid", ev.arg1) ∷ ("sgid", ev.arg2) ∷ [])) [
      | [] ↦ none
      | name ∷ more ↦ some (
          escalation ev (
            concat (
              "Process "
              ∷ proc_label ev
              ∷ " called setresgid() requesting group root for "
              ∷ join ", " (name ∷ more)
              ∷ " — possible privilege escalation attempt"
              ∷ [])))
    ]

unfoldable pub eval_capset : Event → Option Alert
unfolding escalation
eval_capset ev = some (
    escalation ev (
      concat (
        "Process "
        ∷ proc_label ev
        ∷ " called capset() as a non-root user — possible capability manipulation"
        ∷ [])))

abbrev pub mode_setuid : ℕ
mode_setuid = 2 ^ 23

abbrev pub mode_setgid : ℕ
mode_setgid = 2 ^ 22

-- A letter for each bit of a mode that is set, and a text for each that is not.
mode_letters : String → List (ℕ × String) → ℕ → String
mode_letters unset [] mode = ""
mode_letters unset ((bit, letter) ∷ rest) mode =
    concat
      ((if bit_and mode (2 ^ bit) == 0 then unset else letter) ∷ mode_letters unset rest mode ∷ [])

-- fs.FileMode.String.
mode_string : ℕ → String
unfolding mode_letters
mode_string mode =
    let kind =
      mode_letters ""
        ((31, "d")
          ∷ (30, "a")
          ∷ (29, "l")
          ∷ (28, "T")
          ∷ (27, "L")
          ∷ (26, "D")
          ∷ (25, "p")
          ∷ (24, "S")
          ∷ (23, "u")
          ∷ (22, "g")
          ∷ (21, "c")
          ∷ (20, "t")
          ∷ (19, "?")
          ∷ [])
        mode in
    concat (
      (if kind == "" then "-" else kind)
      ∷ mode_letters "-"
          ((8, "r")
            ∷ (7, "w")
            ∷ (6, "x")
            ∷ (5, "r")
            ∷ (4, "w")
            ∷ (3, "x")
            ∷ (2, "r")
            ∷ (1, "w")
            ∷ (0, "x")
            ∷ [])
          mode
      ∷ [])

unfoldable pub format_mode : ℕ → String
unfolding mode_string
format_mode mode = concat (mode_string mode ∷ " (0" ∷ format_base 8 (bit_and mode 0o777) ∷ ")" ∷ [])

-- The names of the setuid and setgid bits of a mode.
unfoldable pub suid_bits : ℕ → List String
suid_bits mode =
    (if bit_and mode mode_setuid == 0 then [] else "setuid" ∷ [])
    ++ (if bit_and mode mode_setgid == 0 then [] else "setgid" ∷ [])

-- The alert on a mode with the bits named.
unfoldable pub suid_alert : Event → ℕ → List String → Option Alert
suid_alert ev mode [] = none
suid_alert ev mode (b ∷ more) =
    let bits = b ∷ more in
    let noted = set_arg "suid_bits" (join "," bits) (set_arg "file_mode" (format_mode mode) ev) in
    some (
      new_alert noted rule_name_privilege_escalation tech_setuid_setgid severity_high (
        concat (
          "Process "
          ∷ proc_label ev
          ∷ " executed "
          ∷ join "/" bits
          ∷ " binary "
          ∷ quote ev.path
          ∷ " — possible privilege escalation via elevated executable"
          ∷ [])))

unfoldable pub eval_suid_exec : Context → Option Alert
eval_suid_exec c =
    let ev = c.event in
    if ev.path == "" || not (has_prefix ev.path "/") then none else elim (c.config.stat ev.path) [
      | none ↦ none
      | some mode ↦ suid_alert ev mode (suid_bits mode)
    ]

unfoldable pub eval_privilege_escalation : Context → Option Alert
eval_privilege_escalation c =
    let ev = c.event in
    let sc = ev.syscall_id in
    if ev.is_exit
    then none
    else if ev.uid == 0
    then none
    else if sc == sys_setuid
    then eval_setuid ev
    else if sc == sys_setresuid
    then eval_setresuid ev
    else if sc == sys_setgid
    then eval_setgid ev
    else if sc == sys_setresgid
    then eval_setresgid ev
    else if sc == sys_capset
    then eval_capset ev
    else if is_execution sc
    then eval_suid_exec c
    else none
