-- ===== src/Detect/SensitiveFile/Watched.antt =====
-- When the rule on sensitive files alerts.
use krnl_sentry.Base.{
  String, true, false, List, [], ◌∷◌, Option, none, some, ◌≡◌, ◌≢◌, ◌⊎◌, ◌↔◌, arith, nat_eq,
  string_eq, is_set, eq_iff, nat_beq_iff, format_uint,
}
use krnl_sentry.Events.Syscall.{sys_openat}
use krnl_sentry.Events.Event.{Event}
use krnl_sentry.Detect.Config.{Context}
use krnl_sentry.Detect.SensitiveFile.{
  SensitivePath, sensitive_paths, proc_target_pid, report_path, first_match,
  eval_sensitive_file_access,
}
use krnl_sentry.Detect.SensitiveFile.Paths.{clean}

-- A path that an entry of a watch list matches.
abbrev pub IsWatched : String → List SensitivePath → Type 0
IsWatched p [] = ⊥
IsWatched p (sp ∷ rest) = (sp.matches p ≡ true) ⊎ IsWatched p rest

-- The files of the process itself under /proc.
abbrev pub IsSelf : Event → Option String → Type 0
IsSelf ev none = ⊥
IsSelf ev (some target) = (target ≡ "self") ⊎ (target ≡ format_uint ev.pid)

report_path_iff :
    (c : Context) (target : Option String) (sp : SensitivePath)
    → (is_set (report_path c target sp) ≡ true)
      ↔ (¬ (IsSelf c.event target × (c.config.ignore_self_proc ≡ true)))
unfolding report_path
report_path_iff c none sp = (λ h. ground arith, λ h. ground arith)
report_path_iff c (some target) sp =
    let a = eq_iff target "self" in
    let b = eq_iff target (format_uint (Event.pid c.event)) in
    (λ h. ground (arith, a, b), λ h. ground (arith, a, b))

first_match_iff :
    (c : Context) (p : String) (watched : List SensitivePath)
    → (is_set (first_match c p watched) ≡ true) ↔ (
        IsWatched p watched
        × (¬ (IsSelf c.event (proc_target_pid p) × (c.config.ignore_self_proc ≡ true))))
unfolding first_match
first_match_iff c p [] = (λ h. cc, λ h. elim h.0 [ ])
first_match_iff c p (sp ∷ rest) =
    let ih = first_match_iff c p rest in
    let here = report_path_iff c (proc_target_pid p) sp in
    (λ h. ground (arith, ih, here), λ h. ground (arith, ih, here))

-- The rule alerts exactly on the entry of an openat call whose path, once cleaned, is on the watch
-- list, but for the process's own files under /proc where the configuration ignores them.
pub eval_sensitive_file_access_iff :
    (c : Context)
    → let p = clean (Event.path c.event) in
      (is_set (eval_sensitive_file_access c) ≡ true) ↔ (
        (Event.is_exit c.event ≡ false)
        × (Event.syscall_id c.event ≡ sys_openat)
        × (Event.path c.event ≢ "")
        × IsWatched p sensitive_paths
        × (¬ (IsSelf c.event (proc_target_pid p) × (c.config.ignore_self_proc ≡ true))))
unfolding eval_sensitive_file_access
eval_sensitive_file_access_iff c =
    let ev = c.event in
    let found = first_match_iff c (clean ev.path) sensitive_paths in
    let sc = nat_beq_iff ev.syscall_id sys_openat in
    let empty = eq_iff ev.path "" in
    (λ h. ground (arith, found, sc, empty), λ h. ground (arith, found, sc, empty))
