-- ===== src/Detect/Revshell/Rule.antt =====
-- When the rule on reverse shells alerts.
use krnl_sentry.Base.{
  Bool, true, false, ◌&&◌, ◌||◌, not, List, keep, leb, Option, none, some, ◌≡◌, ◌↔◌, refl, sym, ap,
  ◌∙◌, arith, if◌then◌else◌, is_set, unsigned64,
}
use krnl_sentry.Events.Syscall.{is_execution}
use krnl_sentry.Events.Event.{Event}
use krnl_sentry.Detect.Alert.{Alert}
use krnl_sentry.Detect.Config.{Context}
use krnl_sentry.Detect.Tracker.{ProcessHistory, HistoryEntry, within, cutoff}
use krnl_sentry.Detect.Tracker.Window.{IsOrdered, within-keep}
use krnl_sentry.Detect.Revshell.{
  ChainMatch, find_chain, is_loopback, chain_report, eval_reverse_shell,
}
use krnl_sentry.Detect.Revshell.Chain.{IsChain, find_chain_iff}

-- A chain that the configuration ignores: its destination is a loopback address.
abbrev pub IsIgnored : Bool → Option ChainMatch → Type 0
IsIgnored ignore none = ⊥
IsIgnored ignore (some m) = (ignore ≡ true) × (is_loopback m.dest_ip ≡ true)

-- The part of a history that is in the window.
abbrev pub recent_calls : Context → ProcessHistory → List HistoryEntry
recent_calls c h =
    keep
      (λ e.
        leb (cutoff (Event.timestamp c.event) (unsigned64 c.config.rev_shell_window)) e.timestamp)
      h.entries

-- What the rule makes of the result of findChain.
verdict : Context → Option ChainMatch → Option Alert
verdict c o =
    if Event.is_exit c.event || not (is_execution (Event.syscall_id c.event))
    then none
    else elim o [
      | none ↦ none
      | some m ↦
          if c.config.ignore_loopback && is_loopback m.dest_ip
          then none
          else some (chain_report c.event m)
    ]

verdict_iff :
    (c : Context) (o : Option ChainMatch)
    → (is_set (verdict c o) ≡ true) ↔ (
        (Event.is_exit c.event ≡ false)
        × (is_execution (Event.syscall_id c.event) ≡ true)
        × (is_set o ≡ true)
        × (¬ IsIgnored c.config.ignore_loopback o))
unfolding verdict
verdict_iff c none = (λ h. ground arith, λ h. ground arith)
verdict_iff c (some m) = (λ h. ground arith, λ h. ground arith)

eval_reverse_shell-verdict :
    (c : Context)
    → eval_reverse_shell c
      ≡ verdict c (
          find_chain
            (within c.history (Event.timestamp c.event) (unsigned64 c.config.rev_shell_window)))
unfolding eval_reverse_shell verdict
eval_reverse_shell-verdict c = refl

-- Where the history of the process is in the order of time, the rule alerts exactly on the entry
-- of an execve or execveat if the calls of the history that are in the window hold the sequence of
-- a reverse shell, but for a chain to a loopback address where the configuration ignores those.
pub eval_reverse_shell_iff :
    (c : Context) (h : ProcessHistory)
    → c.history ≡ some h
    → IsOrdered h.entries
    → (is_set (eval_reverse_shell c) ≡ true) ↔ (
        (Event.is_exit c.event ≡ false)
        × (is_execution (Event.syscall_id c.event) ≡ true)
        × IsChain (recent_calls c h)
        × (¬ IsIgnored c.config.ignore_loopback (find_chain (recent_calls c h))))
eval_reverse_shell_iff c h known ordered =
    let now = Event.timestamp c.event in
    let window = unsigned64 c.config.rev_shell_window in
    let seen : within c.history now window ≡ recent_calls c h =
      ap (λ o. within o now window) known ∙ within-keep h now window ordered in
    let made : eval_reverse_shell c ≡ verdict c (find_chain (recent_calls c h)) =
      eval_reverse_shell-verdict c ∙ ap (λ hist. verdict c (find_chain hist)) seen in
    let chain = find_chain_iff (recent_calls c h) in
    let iff = verdict_iff c (find_chain (recent_calls c h)) in
    (
      λ a.
          let (entry, exec, found, heeded) = iff.0 (ap is_set (sym made) ∙ a) in
          (entry, exec, chain.0 found, heeded),
      λ (entry, exec, is_chain, heeded).
          ap is_set made ∙ iff.1 (entry, exec, chain.1 is_chain, heeded),
    )
