-- ===== src/Events/Event/Identity.antt =====
-- What Decode of events/event.go takes over from the record as it is.
use Prim.Native.Nat.{digits, min, bit_and-bitwise}
use krnl_sentry.Base.{
  ℕ, ℤ, String, Bool, true, false, List, [], ◌∷◌, ◌≡◌, ◌↔◌, refl, sym, subst, arith, if◌then◌else◌,
  zero, suc, ◌/◌, ◌∙◌, ◌%◌, ◌+ℤ◌, signed64, bit_and, ◌==◌, nat_eq, int_eq, pos,
}
use krnl_sentry.Events.Syscall.{
  to_string, sys_execve, sys_execveat, sys_openat, sys_setuid, sys_setgid, sys_setresuid,
  sys_setresgid, sys_ptrace, sys_socket, sys_connect, sys_dup2, sys_dup3,
}
use krnl_sentry.Events.Event.{
  Raw, Event, set_argv, decode_openat, decode_connect, decode_ptrace, decode_dup, decode_args,
  decode_fields, decode_return, decode, is_exit_record,
}

-- An event with the process, the call, the times and the typed arguments of another.
pub record IsSameCall (ev seen : Event) : Type 0 where
  pub timestamp : seen.timestamp ≡ ev.timestamp
  pub wall : seen.wall ≡ ev.wall
  pub pid : seen.pid ≡ ev.pid
  pub tid : seen.tid ≡ ev.tid
  pub tgid : seen.tgid ≡ ev.tgid
  pub uid : seen.uid ≡ ev.uid
  pub gid : seen.gid ≡ ev.gid
  pub ppid : seen.ppid ≡ ev.ppid
  pub comm : seen.comm ≡ ev.comm
  pub syscall : seen.syscall ≡ ev.syscall
  pub syscall_id : seen.syscall_id ≡ ev.syscall_id
  pub return_value : seen.return_value ≡ ev.return_value
  pub is_exit : seen.is_exit ≡ ev.is_exit
  pub arg0 : seen.arg0 ≡ ev.arg0
  pub arg1 : seen.arg1 ≡ ev.arg1
  pub arg2 : seen.arg2 ≡ ev.arg2
  pub path : seen.path ≡ ev.path
  pub argv : seen.argv ≡ ev.argv
  pub family : seen.family ≡ ev.family

-- Only the arguments and the destination differ.
annotated-IsSameCall :
    (ev : Event) (args : _) (ip : String) (port : ℕ)
    → IsSameCall ev (record ev { args = args; dest_ip = ip; dest_port = port })
annotated-IsSameCall ev args ip port = record {
  timestamp = refl;
  wall = refl;
  pid = refl;
  tid = refl;
  tgid = refl;
  uid = refl;
  gid = refl;
  ppid = refl;
  comm = refl;
  syscall = refl;
  syscall_id = refl;
  return_value = refl;
  is_exit = refl;
  arg0 = refl;
  arg1 = refl;
  arg2 = refl;
  path = refl;
  argv = refl;
  family = refl;
}

with_args-IsSameCall : (ev : Event) (args : _) → IsSameCall ev (record ev { args = args })
with_args-IsSameCall ev args = annotated-IsSameCall ev args ev.dest_ip ev.dest_port

if-IsSameCall :
    (b : Bool) (ev x y : Event)
    → IsSameCall ev x
    → IsSameCall ev y
    → IsSameCall ev (if b then x else y)
if-IsSameCall true ev x y hx hy = hx
if-IsSameCall false ev x y hx hy = hy

set_argv-IsSameCall :
    (r : Raw) (argv : List String) (ev : Event) (args : _)
    → r.argv ≡ argv
    → IsSameCall ev (set_argv r (record ev { args = args }))
unfolding set_argv
set_argv-IsSameCall r [] ev args e = rw e (annotated-IsSameCall ev _ _ _)
set_argv-IsSameCall r (a ∷ more) ev args e = rw e (annotated-IsSameCall ev _ _ _)

decode_openat-IsSameCall : (r : Raw) (ev : Event) → IsSameCall ev (decode_openat r ev)
unfolding decode_openat
decode_openat-IsSameCall r ev = ground arith

decode_connect-IsSameCall : (r : Raw) (ev : Event) → IsSameCall ev (decode_connect r ev)
unfolding decode_connect
decode_connect-IsSameCall r ev = ground arith

decode_ptrace-IsSameCall : (r : Raw) (ev : Event) → IsSameCall ev (decode_ptrace r ev)
unfolding decode_ptrace
decode_ptrace-IsSameCall r ev = ground arith

decode_dup-IsSameCall : (r : Raw) (ev : Event) → IsSameCall ev (decode_dup r ev)
unfolding decode_dup
decode_dup-IsSameCall r ev = annotated-IsSameCall ev _ _ _

decode_args-IsSameCall : (r : Raw) (ev : Event) → IsSameCall ev (decode_args r ev)
unfolding decode_args decode_dup
decode_args-IsSameCall r ev =
    if-IsSameCall (ev.syscall_id == sys_execve) ev _ _ (set_argv-IsSameCall r r.argv ev _ refl) (
      if-IsSameCall (ev.syscall_id == sys_execveat) ev _ _ (set_argv-IsSameCall r r.argv ev _ refl)
        (if-IsSameCall (ev.syscall_id == sys_openat) ev _ _ (decode_openat-IsSameCall r ev) (
          if-IsSameCall (ev.syscall_id == sys_setuid) ev _ _ (with_args-IsSameCall ev _) (
            if-IsSameCall (ev.syscall_id == sys_setgid) ev _ _ (with_args-IsSameCall ev _) (
              if-IsSameCall (ev.syscall_id == sys_setresuid) ev _ _ (with_args-IsSameCall ev _) (
                if-IsSameCall (ev.syscall_id == sys_setresgid) ev _ _ (with_args-IsSameCall ev _) (
                  if-IsSameCall (ev.syscall_id == sys_ptrace) ev _ _ (decode_ptrace-IsSameCall r ev)
                    (if-IsSameCall (ev.syscall_id == sys_socket) ev _ _ (with_args-IsSameCall ev _)
                      (if-IsSameCall (ev.syscall_id == sys_connect) ev _ _
                        (decode_connect-IsSameCall r ev)
                        (if-IsSameCall (ev.syscall_id == sys_dup2) ev _ _
                          (with_args-IsSameCall ev _)
                          (if-IsSameCall (ev.syscall_id == sys_dup3) ev _ _
                            (if-IsSameCall (r.arg2 == pos 0) ev _ _ (with_args-IsSameCall ev _)
                              (with_args-IsSameCall ev _))
                            (with_args-IsSameCall ev ev.args))))))))))))

decode-IsSameCall :
    (r : Raw) (boot_time : ℤ) → IsSameCall (decode_fields r boot_time) (decode r boot_time)
unfolding decode decode_return
decode-IsSameCall r boot_time =
    let ev = decode_fields r boot_time in ground (arith, decode_args-IsSameCall r ev)

-- An event of the process, the call, the times and the typed arguments of a record, when the boot was
-- at some time. A record has the number of the process as its tgid, and that of the thread as pid.
pub record IsCallOf (r : Raw) (boot_time : ℤ) (ev : Event) : Type 0 where
  pub timestamp : ev.timestamp ≡ r.timestamp
  pub wall : ev.wall ≡ boot_time +ℤ signed64 r.timestamp
  pub pid : ev.pid ≡ r.tgid
  pub tid : ev.tid ≡ r.pid
  pub tgid : ev.tgid ≡ r.tgid
  pub uid : ev.uid ≡ r.uid
  pub gid : ev.gid ≡ r.gid
  pub ppid : ev.ppid ≡ r.ppid
  pub comm : ev.comm ≡ r.comm
  pub syscall : ev.syscall ≡ to_string r.syscall_id
  pub syscall_id : ev.syscall_id ≡ r.syscall_id
  pub return_value : ev.return_value ≡ r.ret
  pub is_exit : (ev.is_exit ≡ true) ↔ (r.flags % 2 ≡ 1)
  pub arg0 : ev.arg0 ≡ r.arg0
  pub arg1 : ev.arg1 ≡ r.arg1
  pub arg2 : ev.arg2 ≡ r.arg2
  pub path : ev.path ≡ r.path
  pub argv : ev.argv ≡ r.argv
  pub family : ev.family ≡ r.family

digits-zero : (n a : ℕ) → digits (λ b. zero) min n a 0 ≡ 0
digits-zero zero a = refl
digits-zero (suc n) zero = refl
digits-zero (suc n) (suc a) = omega (arith, digits-zero n (suc a / 2))

bit_and_one : (n : ℕ) → bit_and n 1 ≡ n % 2
bit_and_one zero = refl
bit_and_one (suc n) =
    let step : digits (λ b. 0) min (suc n) (suc n) 1 ≡ suc n % 2 =
      omega (arith, digits-zero n (suc n / 2)) in
    bit_and-bitwise (suc n) 1 ∙ step

is_exit_record_iff : (r : Raw) → (is_exit_record r ≡ true) ↔ (r.flags % 2 ≡ 1)
unfolding is_exit_record
is_exit_record_iff r = ground (arith, bit_and_one r.flags)

-- Decode gives an event the process, the thread and the users, the call, the times, the result and
-- the typed arguments of the record, whatever it makes of the arguments as text: the tgid of the
-- record as its PID and the pid as its TID, the boot time and the timestamp as its time, and the
-- lowest bit of the flags as what says that it is a return.
pub decode-IsCallOf : (r : Raw) (boot_time : ℤ) → IsCallOf r boot_time (decode r boot_time)
unfolding decode_fields
decode-IsCallOf r boot_time =
    let same = decode-IsSameCall r boot_time in
    record {
      timestamp = same.timestamp;
      wall = same.wall;
      pid = same.pid;
      tid = same.tid;
      tgid = same.tgid;
      uid = same.uid;
      gid = same.gid;
      ppid = same.ppid;
      comm = same.comm;
      syscall = same.syscall;
      syscall_id = same.syscall_id;
      return_value = same.return_value;
      is_exit =
          subst (λ b. (b ≡ true) ↔ (r.flags % 2 ≡ 1)) (sym same.is_exit) (is_exit_record_iff r);
      arg0 = same.arg0;
      arg1 = same.arg1;
      arg2 = same.arg2;
      path = same.path;
      argv = same.argv;
      family = same.family;
    }
