-- ===== src/Events/Event.antt =====
-- events/event.go: the kernel's record, the event, and the decoding between them. A time.Time is
-- the number of nanoseconds since an epoch.
pub mod Identity
use krnl_sentry.Base.{
  ℕ, ◌%◌, ◌^◌, String, Bool, ◌||◌, not, List, [], ◌∷◌, ◌==◌, nat_eq, string_eq, int_eq,
  if◌then◌else◌, concat, join, has_prefix, ℤ, pos, ◌+ℤ◌, neg64, ltb_ℤ, signed64, unsigned64,
  bit_and, format_base, format_uint, format_int,
}
use krnl_sentry.Dict.{insert}
use krnl_sentry.Events.Syscall.{
  Syscall, to_string, sys_execve, sys_execveat, sys_openat, sys_setuid, sys_setgid, sys_setresuid,
  sys_setresgid, sys_ptrace, sys_socket, sys_connect, sys_dup2, sys_dup3,
}
use krnl_sentry.Events.Constants.{
  o_creat, o_tmpfile, has_bits, hex, format_open_flags, format_dirfd, format_execveat_flags,
  ptrace_request_name, is_ptrace_memory_op, address_family_name, format_socket_type, format_std_fd,
  format_id, format_ipv4, ntohs, errno_name,
}

pub record Raw : Type 0 where
  pub timestamp : ℕ
  pub pid : ℕ
  pub tgid : ℕ
  pub uid : ℕ
  pub gid : ℕ
  pub ppid : ℕ
  pub syscall_id : ℕ
  pub ret : ℤ
  pub arg0 : ℤ
  pub arg1 : ℤ
  pub arg2 : ℤ
  pub daddr : ℕ
  pub dport : ℕ
  pub family : ℕ
  pub flags : ℕ
  pub comm : String
  pub path : String
  pub argv : List String

-- map[string]string
abbrev pub Args : Type 0
Args = List (String × String)

abbrev pub flag_sys_exit : ℕ
flag_sys_exit = 1

-- Raw.IsExit.
unfoldable pub is_exit_record : Raw → Bool
is_exit_record r = not (bit_and r.flags flag_sys_exit == 0)

pub record Event : Type 0 where
  pub timestamp : ℕ
  pub wall : ℤ
  pub pid : ℕ
  pub tid : ℕ
  pub tgid : ℕ
  pub uid : ℕ
  pub gid : ℕ
  pub ppid : ℕ
  pub comm : String
  pub syscall : String
  pub syscall_id : Syscall
  pub args : Args
  pub return_value : ℤ
  pub is_exit : Bool
  pub arg0 : ℤ
  pub arg1 : ℤ
  pub arg2 : ℤ
  pub path : String
  pub argv : List String
  pub dest_ip : String
  pub dest_port : ℕ
  pub family : ℕ

-- ev.Args[k] = v
abbrev pub set_arg : String → String → Event → Event
set_arg k v ev = record ev { args = insert k v ev.args }

set_argv : Raw → Event → Event
set_argv r ev = elim r.argv [ [] ↦ ev | a ∷ more ↦ set_arg "argv" (join " " r.argv) ev ]

decode_openat : Raw → Event → Event
decode_openat r ev =
    let named =
      set_arg "flags" (format_open_flags r.arg1)
        (set_arg "dfd" (format_dirfd r.arg0) (set_arg "path" r.path ev)) in
    let w = unsigned64 r.arg1 in
    if not (bit_and w o_creat == 0) || has_bits w o_tmpfile
    then set_arg "mode" (concat ("0" ∷ format_base 8 (bit_and (unsigned64 r.arg2) 0o7777) ∷ []))
        named
    else named

-- "%s:%d"
abbrev pub endpoint : String → ℕ → String
endpoint ip port = concat (ip ∷ ":" ∷ format_uint port ∷ [])

decode_connect : Raw → Event → Event
decode_connect r ev =
    let port = ntohs r.dport in
    let ip = if r.daddr == 0 then "" else format_ipv4 r.daddr in
    let named =
      record (set_arg "family" (address_family_name r.family)
        (set_arg "fd" (format_int r.arg0) ev)) { dest_ip = ip; dest_port = port } in
    if not (ip == "")
    then set_arg "dest" (endpoint ip port) named
    else if not (port == 0)
    then set_arg "dest_port" (format_uint port) named
    else named

decode_ptrace : Raw → Event → Event
decode_ptrace r ev =
    let named =
      set_arg "target_pid" (format_int r.arg1)
        (set_arg "request" (ptrace_request_name r.arg0) ev) in
    if is_ptrace_memory_op r.arg0 then set_arg "addr" (hex (unsigned64 r.arg2)) named else named

decode_dup : Raw → Event → Event
decode_dup r ev = set_arg "newfd" (format_std_fd r.arg1) (set_arg "oldfd" (format_int r.arg0) ev)

-- decodeArgs: the switch on the syscall.
unfoldable pub decode_args : Raw → Event → Event
unfolding set_argv decode_openat decode_connect decode_ptrace decode_dup
decode_args r ev =
    let sc = ev.syscall_id in
    if sc == sys_execve
    then set_argv r (set_arg "path" r.path ev)
    else if sc == sys_execveat
    then set_argv r (
        set_arg "flags" (format_execveat_flags r.arg1)
          (set_arg "dfd" (format_dirfd r.arg0) (set_arg "path" r.path ev)))
    else if sc == sys_openat
    then decode_openat r ev
    else if sc == sys_setuid
    then set_arg "target_uid" (format_id r.arg0) ev
    else if sc == sys_setgid
    then set_arg "target_gid" (format_id r.arg0) ev
    else if sc == sys_setresuid
    then set_arg "suid" (format_id r.arg2)
        (set_arg "euid" (format_id r.arg1) (set_arg "ruid" (format_id r.arg0) ev))
    else if sc == sys_setresgid
    then set_arg "sgid" (format_id r.arg2)
        (set_arg "egid" (format_id r.arg1) (set_arg "rgid" (format_id r.arg0) ev))
    else if sc == sys_ptrace
    then decode_ptrace r ev
    else if sc == sys_socket
    then set_arg "protocol" (format_int r.arg2) (
        set_arg "type" (format_socket_type r.arg1)
          (set_arg "family" (address_family_name (unsigned64 r.arg0 % 2 ^ 16)) ev))
    else if sc == sys_connect
    then decode_connect r ev
    else if sc == sys_dup2
    then decode_dup r ev
    else if sc == sys_dup3
    then (if r.arg2 == pos 0
        then decode_dup r ev
        else set_arg "flags" (hex (unsigned64 r.arg2)) (decode_dup r ev))
    else ev

-- The fields that Decode copies, before the arguments are interpreted.
unfoldable pub decode_fields : Raw → ℤ → Event
decode_fields r boot_time = record {
  timestamp = r.timestamp;
  wall = boot_time +ℤ signed64 r.timestamp;
  pid = r.tgid;
  tid = r.pid;
  tgid = r.tgid;
  uid = r.uid;
  gid = r.gid;
  ppid = r.ppid;
  comm = r.comm;
  syscall = to_string r.syscall_id;
  syscall_id = r.syscall_id;
  args = [];
  return_value = r.ret;
  is_exit = is_exit_record r;
  arg0 = r.arg0;
  arg1 = r.arg1;
  arg2 = r.arg2;
  path = r.path;
  argv = r.argv;
  dest_ip = "";
  dest_port = 0;
  family = r.family;
}

-- What a return probe reports: the result, and the name of the error if it is negative.
unfoldable pub decode_return : Raw → Event → Event
decode_return r ev =
    let named = set_arg "ret" (format_int r.ret) ev in
    if ltb_ℤ r.ret (pos 0) then set_arg "error" (errno_name (neg64 r.ret)) named else named

unfoldable pub decode : Raw → ℤ → Event
unfolding decode_args decode_fields decode_return
decode r boot_time =
    let ev = decode_fields r boot_time in
    if ev.is_exit then decode_return r ev else decode_args r ev

-- Event.IsLoopback.
unfoldable pub is_loopback_event : Event → Bool
is_loopback_event e = has_prefix e.dest_ip "127." || e.dest_ip == "::1"
