-- ===== src/Events/Record/Lossless.antt =====
-- What a capture keeps of an event.
use krnl_sentry.Base.{ℤ, pos, String, some, ◌≡◌, ◌≢◌, sym, ap, ◌∙◌, arith, if◌then◌else◌, nat_eq}
use krnl_sentry.Dict.{lookup}
use krnl_sentry.Events.Syscall.{sys_unknown, syscall_names, parse_syscall, to_string}
use krnl_sentry.Events.Syscall.Names.{parse_syscall_iff, to_string-parse_syscall}
use krnl_sentry.Events.Event.{Raw, Event, decode, decode_fields}
use krnl_sentry.Events.Event.Identity.{decode-IsCallOf}
use krnl_sentry.Events.Record.{Result, ok, new_record, restore, record_event_of}

-- What reading gives back: all but the exact time, and the return value of an entry, which has
-- none.
abbrev pub as_read : ℤ → Event → Event
as_read wall ev = record ev {
  wall = wall;
  return_value = if ev.is_exit then ev.return_value else pos 0;
}

-- A process has one number, and the call has its name.
pub record IsConsistent (ev : Event) : Type 0 where
  pub one_pid : ev.tgid ≡ ev.pid
  pub named : parse_syscall ev.syscall ≡ some ev.syscall_id

-- Reading what was written of a consistent event gives the event back, but for its wall clock,
-- which is what the parser makes of the text, and for the return value of an entry.
pub record_event_of-new_record :
    (format_time : ℤ → String) (parse_time : String → Result ℤ) (ev : Event) (wall : ℤ)
    → parse_time (format_time ev.wall) ≡ ok wall
    → IsConsistent ev
    → record_event_of parse_time (new_record format_time ev) ≡ ok (as_read wall ev)
unfolding record_event_of new_record restore
record_event_of-new_record format_time parse_time ev wall clock v =
    let name = to_string-parse_syscall ev.syscall ev.syscall_id v.named in
    ground (arith, clock, v.named, name, v.one_pid)

-- A decoded event of a call that this build knows, other than 0, is consistent.
pub decode-IsConsistent :
    (r : Raw) (boot_time : ℤ) (name : String)
    → lookup r.syscall_id syscall_names ≡ some name
    → r.syscall_id ≢ sys_unknown
    → IsConsistent (decode r boot_time)
unfolding decode_fields
decode-IsConsistent r boot_time name known other =
    let v = decode-IsCallOf r boot_time in
    let parsed = (parse_syscall_iff name r.syscall_id).1 (known, other) in
    let named : to_string r.syscall_id ≡ name = to_string-parse_syscall name r.syscall_id parsed in
    record {
      one_pid = v.tgid ∙ sym v.pid;
      named =
          ap parse_syscall (v.syscall ∙ named) ∙ (parsed ∙ ap (λ sc. some sc) (sym v.syscall_id));
    }
