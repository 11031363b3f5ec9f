-- ===== src/Events/Record.antt =====
-- events/record.go: the form of an event in a capture, and the reading of captures. Parameters: the
-- text of a time and its parsing (package time), and the parsing of a line (encoding/json), with
-- nil for a line that is no record. A nil map of arguments is the empty list here.
pub mod Lossless
pub mod Reading
use krnl_sentry.Base.{
  ℕ, ◌+◌, ℤ, pos, String, Bool, true, false, List, [], ◌∷◌, Option, none, some, if◌then◌else◌,
  concat, quote, trim_space, ◌==◌, string_eq, format_uint,
}
use krnl_sentry.Events.Syscall.{Syscall, parse_syscall, to_string}
use krnl_sentry.Events.Event.{Event, Args}

pub record Record : Type 0 where
  pub timestamp : String
  pub monotonic : ℕ
  pub pid : ℕ
  pub tid : ℕ
  pub ppid : ℕ
  pub uid : ℕ
  pub gid : ℕ
  pub comm : String
  pub syscall : String
  pub exit : Bool
  pub ret : ℤ
  pub args : Args
  pub arg0 : ℤ
  pub arg1 : ℤ
  pub arg2 : ℤ
  pub path : String
  pub argv : List String
  pub dest_ip : String
  pub dest_port : ℕ
  pub family : ℕ

-- A value, or the text of an error.
pub data Result {ℓ} (A : Type ℓ) : Type ℓ where
  ok : A → Result A
  err : String → Result A

-- NewRecord, for a layout of times.
unfoldable pub new_record : (ℤ → String) → Event → Record
new_record format_time ev = record {
  timestamp = format_time ev.wall;
  monotonic = ev.timestamp;
  pid = ev.pid;
  tid = ev.tid;
  ppid = ev.ppid;
  uid = ev.uid;
  gid = ev.gid;
  comm = ev.comm;
  syscall = ev.syscall;
  exit = ev.is_exit;
  ret = if ev.is_exit then ev.return_value else pos 0;
  args = ev.args;
  arg0 = ev.arg0;
  arg1 = ev.arg1;
  arg2 = ev.arg2;
  path = ev.path;
  argv = ev.argv;
  dest_ip = ev.dest_ip;
  dest_port = ev.dest_port;
  family = ev.family;
}

-- The event of a record whose call and time are known.
unfoldable pub restore : Record → Syscall → ℤ → Event
restore r sc wall = record {
  timestamp = r.monotonic;
  wall = wall;
  pid = r.pid;
  tid = r.tid;
  tgid = r.pid;
  uid = r.uid;
  gid = r.gid;
  ppid = r.ppid;
  comm = r.comm;
  syscall = to_string sc;
  syscall_id = sc;
  args = r.args;
  return_value = r.ret;
  is_exit = r.exit;
  arg0 = r.arg0;
  arg1 = r.arg1;
  arg2 = r.arg2;
  path = r.path;
  argv = r.argv;
  dest_ip = r.dest_ip;
  dest_port = r.dest_port;
  family = r.family;
}

-- Record.Event. What time.Parse says of a text that it refuses is a parameter too.
unfoldable pub record_event_of : (String → Result ℤ) → Record → Result Event
record_event_of parse_time r = elim (parse_syscall r.syscall) [
  | none ↦ err (concat ("unknown syscall " ∷ quote r.syscall ∷ []))
  | some sc ↦ elim (parse_time r.timestamp) [
    | err e ↦ err (concat ("bad timestamp " ∷ quote r.timestamp ∷ ": " ∷ e ∷ []))
    | ok wall ↦ ok (restore r sc wall)
  ]
]

-- The error of a line.
unfoldable pub line_error : ℕ → String → String
line_error line_no e = concat ("line " ∷ format_uint line_no ∷ ": " ∷ e ∷ [])

-- What follows a step, unless it ended in an error.
unfoldable pub and_then {ℓ} :
    {S : Type ℓ} → S × Option String → (S → S × Option String) → S × Option String
and_then (s, some e) next = (s, some e)
and_then (s, none) next = next s

-- The loop of ReadRecords over the lines of a capture, with a state that the callback changes.
module _ {ℓ} {S : Type ℓ} (unmarshal : String → Result Record) (parse_time : String → Result ℤ)
    (fn : S → Event → S × Option String) where
  -- What a line does after it is parsed: the state, and the error that ends the reading.
  unfoldable pub deliver : ℕ → S → Record → S × Option String
  deliver line_no s r = elim (record_event_of parse_time r) [
    | err e ↦ (s, some (line_error line_no e))
    | ok ev ↦ fn s ev
  ]

  -- The state of the loop is the number of lines read and the pending error.
  unfoldable pub read_lines : ℕ → Option String → S → List String → S × Option String
  unfolding deliver
  read_lines line_no pending s [] = (s, none)
  read_lines line_no pending s (line ∷ rest) =
      let blank = read_lines (line_no + 1) pending s rest in
      let bad =
        λ (e : String). read_lines (line_no + 1) (some (line_error (line_no + 1) e)) s rest in
      let next = λ (s' : S). read_lines (line_no + 1) none s' rest in
      if trim_space line == "" then blank else elim pending [
        | some e ↦ (s, some e)
        | none ↦ elim (unmarshal line) [
          | err e ↦ bad e
          | ok r ↦ and_then (deliver (line_no + 1) s r) next
        ]
      ]

  -- ReadRecords, where the scanner reads all lines.
  unfoldable pub read_records : S → List String → S × Option String
  read_records s lines = read_lines 0 none s lines
