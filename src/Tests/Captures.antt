-- ===== src/Tests/Captures.antt =====
-- The properties of decoding and of captures at concrete records and lines.
use krnl_sentry.Base.{
  ℕ, ◌+◌, ℤ, pos, String, false, List, [], ◌∷◌, ◌++◌, map, Option, none, some, ◌≡◌, refl, arith,
  if◌then◌else◌, ◌==◌, nat_eq, string_eq, trim_space, quote,
}
use krnl_sentry.Dict.{lookup}
use krnl_sentry.Events.Syscall.{sys_connect, syscall_names, parse_syscall, parse_from}
use krnl_sentry.Events.Event.{Raw, Event, decode}
use krnl_sentry.Events.Event.Identity.{IsCallOf, decode-IsCallOf}
use krnl_sentry.Events.Record.{
  Record, Result, ok, err, new_record, record_event_of, read_records, line_error,
}
use krnl_sentry.Events.Record.Lossless.{
  as_read, IsConsistent, record_event_of-new_record, decode-IsConsistent,
}
use krnl_sentry.Events.Record.Reading.{
  IsLineOf, IsBadLine, IsBlank, IsRefused, feed, read_records-feed, read_records_corrupt,
}
use krnl_sentry.Tests.Data.{connect_event}

-- A kernel record of a connect to 127.0.0.1:4444.
abbrev connect_record : Raw
connect_record = record {
  timestamp = 1000000000;
  pid = 1000;
  tgid = 1000;
  uid = 1000;
  gid = 1000;
  ppid = 900;
  syscall_id = sys_connect;
  ret = pos 0;
  arg0 = pos 3;
  arg1 = pos 0;
  arg2 = pos 0;
  daddr = 0x0100007f;
  dport = 0x5c11;
  family = 2;
  flags = 0;
  comm = "testproc";
  path = "";
  argv = [];
}

decode-IsCallOf_example : IsCallOf connect_record (pos 0) (decode connect_record (pos 0))
decode-IsCallOf_example = decode-IsCallOf connect_record (pos 0)

connect_known : lookup sys_connect syscall_names ≡ some "connect"
unfolding lookup syscall_names
connect_known = refl

decode-IsConsistent_example : IsConsistent (decode connect_record (pos 0))
decode-IsConsistent_example =
    decode-IsConsistent connect_record (pos 0) "connect" connect_known (ground arith)

-- A clock with one instant.
abbrev show_time : ℤ → String
show_time t = "1970-01-01T00:00:00.005Z"

abbrev read_time : String → Result ℤ
read_time s = if s == "1970-01-01T00:00:00.005Z" then ok (pos 5000000) else err "not a time"

connect_event-IsConsistent : IsConsistent connect_event
unfolding parse_syscall parse_from syscall_names
connect_event-IsConsistent = record { one_pid = refl; named = refl }

record_event_of-new_record_example :
    record_event_of read_time (new_record show_time connect_event)
    ≡ ok (as_read (pos 5000000) connect_event)
record_event_of-new_record_example =
    record_event_of-new_record show_time read_time connect_event (pos 5000000) refl
      connect_event-IsConsistent

-- A parser of lines that knows an event, and a call that is none of the program's.
abbrev parse_line : String → Result Record
parse_line line =
    if line == "{}"
    then ok (new_record show_time connect_event)
    else if line == "[]"
    then ok (record (new_record show_time connect_event) { syscall = "fork" })
    else err "not JSON"

-- A callback that counts, and that does not take a fourth event.
abbrev count_three : ℕ → Event → ℕ × Option String
count_three n ev = if n == 3 then (n, some "full") else (n + 1, none)

abbrev read_connect : Event
read_connect = as_read (pos 5000000) connect_event

abbrev two_lines : List (String × Event)
two_lines = ("{}", read_connect) ∷ ("{}", read_connect) ∷ []

connect_line : IsLineOf parse_line read_time count_three ("{}", read_connect)
unfolding trim_space
connect_line =
    (refl, (new_record show_time connect_event, refl, record_event_of-new_record_example))

cut_line : IsBadLine parse_line read_time count_three "{"
unfolding trim_space
cut_line = (refl, ("not JSON", refl))

spaces_ignored : IsBlank parse_line read_time count_three " "
unfolding trim_space
spaces_ignored = refl

read_records-feed_example :
    let fed = feed parse_line read_time count_three 0 (map (λ p. p.1) two_lines) (λ t. (t, none)) in
    (read_records parse_line read_time count_three 0 (map (λ p. p.0) two_lines ++ []) ≡ fed)
    × (read_records parse_line read_time count_three 0
          (map (λ p. p.0) two_lines ++ ("{" ∷ (" " ∷ [])))
        ≡ fed)
read_records-feed_example =
    read_records-feed parse_line read_time count_three 0 two_lines "{" (" " ∷ [])
      (connect_line, (connect_line, tt)) cut_line (spaces_ignored, tt)

line_filled : (trim_space "{}" == "") ≡ false
unfolding trim_space
line_filled = refl

-- A blank line between two events.
abbrev spaced_lines : List (String × Option Event)
spaced_lines = ("{}", some read_connect) ∷ (" ", none) ∷ ("{}", some read_connect) ∷ []

unknown_call : IsRefused parse_line read_time count_three "[]" "unknown syscall \"fork\""
unfolding trim_space record_event_of parse_syscall parse_from syscall_names quote
unknown_call =
    (refl, (record (new_record show_time connect_event) { syscall = "fork" }, refl, refl))

brace_filled : (trim_space "{" == "") ≡ false
unfolding trim_space
brace_filled = refl

read_records_corrupt_example :
    (read_records parse_line read_time count_three 0
        (map (λ p. p.0) spaced_lines ++ ("{" ∷ ((" " ∷ []) ++ ("{}" ∷ []))))
      ≡ feed parse_line read_time count_three 0
          (read_connect ∷ read_connect ∷ [])
          (λ t. (t, some (line_error 4 "not JSON"))))
    × (read_records parse_line read_time count_three 0 (map (λ p. p.0) spaced_lines ++ ("[]" ∷ []))
        ≡ feed parse_line read_time count_three 0
            (read_connect ∷ read_connect ∷ [])
            (λ t. (t, some (line_error 4 "unknown syscall \"fork\""))))
read_records_corrupt_example =
    read_records_corrupt parse_line read_time count_three 0 spaced_lines "{" "not JSON" (" " ∷ [])
      "{}" "[]" "unknown syscall \"fork\"" [] (connect_line, (spaces_ignored, (connect_line, tt)))
      brace_filled refl (spaces_ignored, tt) line_filled unknown_call
