-- ===== src/Detect/Revshell.antt =====
-- detect/revshell.go: the rule on the sequence socket, connect, dup2, execve.
pub mod Anchor
pub mod Chain
pub mod Rule
use krnl_sentry.Base.{
  ℕ, suc, ◌+◌, ◌<◌, ltb, leb, ltb_ℤ, ℤ, pos, negsuc, String, Bool, true, false, ◌&&◌, ◌||◌, not,
  List, [], ◌∷◌, map, Option, none, some, ◌==◌, nat_eq, int_eq, string_eq, if◌then◌else◌, concat,
  join, quote, has_prefix, format_int, length, drop, sort_texts, sub64, signed64, unsigned64,
  div_trunc, is_set,
}
use krnl_sentry.Dict.{insert}
use krnl_sentry.Events.Syscall.{sys_socket, sys_connect, is_dup, is_execution}
use krnl_sentry.Events.Constants.{std_fd_name}
use krnl_sentry.Events.Event.{Event, set_arg, endpoint}
use krnl_sentry.Detect.Tracker.{HistoryEntry, within}
use krnl_sentry.Detect.Alert.{
  Alert, new_alert, proc_label, severity_critical, tech_command_interpreter,
}
use krnl_sentry.Detect.Config.{Context, rule_name_reverse_shell, millisecond}

abbrev pub min_redirected_fds : ℕ
min_redirected_fds = 2

-- The set of redirected descriptors is a map to true.
pub record ChainMatch : Type 0 where
  pub start_ts : ℕ
  pub dest_ip : String
  pub dest_port : ℕ
  pub redirected : List (ℤ × Bool)
  pub fd_confirmed : Bool

unfoldable pub destination : ChainMatch → String
destination c = if c.dest_ip == "" then "" else endpoint c.dest_ip c.dest_port

unfoldable pub dest_suffix : String → String
dest_suffix dest = if dest == "" then "" else concat (" to " ∷ dest ∷ [])

-- The variables of the first loop of findChain. An index of -1 is none.
pub record Anchors : Type 0 where
  pub socket_idx : Option ℕ
  pub connect_idx : Option ℕ
  pub socket_fd : ℤ
  pub start_ts : ℕ
  pub dest_ip : String
  pub dest_port : ℕ

abbrev pub no_anchors : Anchors
no_anchors = record {
  socket_idx = none;
  connect_idx = none;
  socket_fd = negsuc 0;
  start_ts = 0;
  dest_ip = "";
  dest_port = 0;
}

abbrev pub is_socket_call : HistoryEntry → Bool
is_socket_call e = e.syscall == sys_socket && not e.is_exit

abbrev pub is_socket_return : HistoryEntry → Bool
is_socket_return e = e.syscall == sys_socket && e.is_exit

abbrev pub is_connect_call : HistoryEntry → Bool
is_connect_call e = e.syscall == sys_connect && not e.is_exit

-- One round of the first loop: the first socket, the descriptor that it returns, and the first
-- connect after it.
unfoldable pub anchor_step : ℕ → Anchors → HistoryEntry → Anchors
anchor_step i a e =
    if is_socket_call e
    then (if is_set a.socket_idx
        then a
        else record a { socket_idx = some i; start_ts = e.timestamp })
    else if is_socket_return e
    then (if is_set a.socket_idx && (ltb_ℤ a.socket_fd (pos 0) && not (ltb_ℤ e.ret (pos 0)))
        then record a { socket_fd = e.ret }
        else a)
    else if is_connect_call e
    then (if is_set a.socket_idx && not (is_set a.connect_idx)
        then record a { connect_idx = some i; dest_ip = e.dest_ip; dest_port = e.dest_port }
        else a)
    else a

unfoldable pub anchors : ℕ → Anchors → List HistoryEntry → Anchors
anchors i a [] = a
anchors i a (e ∷ rest) = anchors (suc i) (anchor_step i a e) rest

-- A dup2 or dup3 call onto a standard stream.
abbrev pub is_redirection : HistoryEntry → Bool
is_redirection e = is_dup e.syscall && not e.is_exit && not (std_fd_name e.arg1 == "")

-- One round of the second loop of findChain.
unfoldable pub redirect_step : ℤ → ChainMatch → HistoryEntry → ChainMatch
redirect_step socket_fd m e =
    if is_redirection e
    then record m {
      redirected = insert e.arg1 true m.redirected;
      fd_confirmed = m.fd_confirmed || (not (ltb_ℤ socket_fd (pos 0)) && e.arg0 == socket_fd);
    }
    else m

-- The second loop, over the entries after the connect.
unfoldable pub redirections : ℤ → ChainMatch → List HistoryEntry → ChainMatch
redirections socket_fd m [] = m
redirections socket_fd m (e ∷ rest) = redirections socket_fd (redirect_step socket_fd m e) rest

-- Whether enough descriptors are redirected.
abbrev pub enough : ChainMatch → Option ChainMatch
enough m = if ltb (length m.redirected) min_redirected_fds then none else some m

-- The part of findChain after the first loop.
unfoldable pub redirected_after : List HistoryEntry → Anchors → Option ℕ → Option ChainMatch
redirected_after hist a none = none
redirected_after hist a (some connect) = enough (
    redirections a.socket_fd
      (record {
        start_ts = a.start_ts;
        dest_ip = a.dest_ip;
        dest_port = a.dest_port;
        redirected = [];
        fd_confirmed = false;
      })
      (drop (connect + 1) hist))

unfoldable pub find_chain : List HistoryEntry → Option ChainMatch
find_chain hist =
    let a = anchors 0 no_anchors hist in
    if is_set a.socket_idx then redirected_after hist a a.connect_idx else none

unfoldable pub is_loopback : String → Bool
is_loopback ip = has_prefix ip "127." || ip == "::1"

-- The name of a redirected descriptor in the evidence.
abbrev pub fd_label : ℤ × Bool → String
fd_label (fd, _) = if std_fd_name fd == "" then format_int fd else std_fd_name fd

abbrev pub format_bool : Bool → String
format_bool b = if b then "true" else "false"

unfoldable pub chain_duration : Event → ChainMatch → String
chain_duration ev chain =
    format_int (div_trunc (signed64 (sub64 ev.timestamp chain.start_ts)) millisecond)

-- The event with the evidence noted in its arguments.
unfoldable pub note_chain : Event → ChainMatch → Event
note_chain ev chain =
    let noted = set_arg "chain_socket_fd_confirmed" (format_bool chain.fd_confirmed) (
      set_arg "chain_duration_ms" (chain_duration ev chain)
        (set_arg "chain_redirected" (join "," (sort_texts (map fd_label chain.redirected))) ev)) in
    if destination chain == "" then noted else set_arg "chain_dest" (destination chain) noted

unfoldable pub chain_report : Event → ChainMatch → Alert
chain_report ev chain =
    new_alert (note_chain ev chain) rule_name_reverse_shell tech_command_interpreter
      severity_critical
      (concat (
        "Process "
        ∷ proc_label ev
        ∷ " completed socket → connect"
        ∷ dest_suffix (destination chain)
        ∷ " → dup2("
        ∷ join "," (sort_texts (map fd_label chain.redirected))
        ∷ ") → execve("
        ∷ quote ev.path
        ∷ ") in "
        ∷ chain_duration ev chain
        ∷ "ms — reverse shell pattern"
        ∷ []))

-- An empty history holds no chain, so that the code's test for one is not written again.
unfoldable pub eval_reverse_shell : Context → Option Alert
eval_reverse_shell c =
    let ev = c.event in
    if ev.is_exit || not (is_execution ev.syscall_id)
    then none
    else elim (find_chain (within c.history ev.timestamp (unsigned64 c.config.rev_shell_window))) [
      | none ↦ none
      | some chain ↦
          if c.config.ignore_loopback && is_loopback chain.dest_ip
          then none
          else some (chain_report ev chain)
    ]
