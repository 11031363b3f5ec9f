-- ===== src/Output/Sink.antt =====
-- output/sink.go and output/jsonl.go: the sinks as state machines. What the operating system
-- answers to the calls on a file, in their order, is part of the file, and so is what it holds.
-- The JSON of a value is a parameter. The mutexes are left out.
pub mod Log
pub mod Fan
use krnl_sentry.Base.{
  ℕ, ℤ, ltb, String, Bool, true, false, not, ◌||◌, List, [], ◌∷◌, ◌++◌, Option, none, some,
  if◌then◌else◌, concat, join, quote,
}
use krnl_sentry.Events.Event.{Event}
use krnl_sentry.Events.Record.{Record, new_record, Result, ok, err}
use krnl_sentry.Detect.Alert.{Alert, Severity}
use krnl_sentry.Output.Terminal.{take_runes}
use krnl_sentry.Output.Console.{format_alert, should_color}
use krnl_sentry.Output.Dashboard.{Dashboard, Closing, waits, returns, write, close}

-- What the operating system answers to a call: it succeeds, or it fails with an error; a write that
-- fails has then written some of its text, which the number of characters says.
pub data Answer : Type 0 where
  succeeds : Answer
  fails : ℕ → String → Answer

-- An open file: what was written, piece by piece, and the answers to the calls to come. Calls beyond
-- the list succeed.
pub record File : Type 0 where
  pub text : List String
  pub answers : List Answer

-- The answer to the next call.
abbrev pub answer : File → Answer
answer f = elim f.answers [ [] ↦ succeeds | first ∷ rest ↦ first ]

abbrev pub rest_of : List Answer → List Answer
rest_of [] = []
rest_of (first ∷ rest) = rest

abbrev pub error_of : Answer → Option String
error_of succeeds = none
error_of (fails n e) = some e

-- What a write of a text with some answer leaves in the file.
abbrev pub written : String → Answer → String
written s succeeds = s
written s (fails n e) = take_runes n s

-- A call that writes nothing, such as Sync or Close.
unfoldable pub call : File → File × Option String
call f = (record f { answers = rest_of f.answers }, error_of (answer f))

-- A write.
unfoldable pub put : String → File → File × Option String
put s f = (
  record { text = f.text ++ (written s (answer f) ∷ []); answers = rest_of f.answers },
  error_of (answer f),
)

-- fmt.Errorf("<what> %q: %w", path, err), and nil for nil.
unfoldable pub wrap : String → String → Option String → Option String
wrap what path none = none
wrap what path (some e) = some (concat (what ∷ " " ∷ quote path ∷ ": " ∷ e ∷ []))

unfoldable pub closed_error : String → String → Option String
closed_error what path = some (concat (what ∷ " " ∷ quote path ∷ " is closed" ∷ []))

-- JSONLSink and EventSink: `open_file` says that the field for the file is not nil, and `failure` is
-- the error that the encoder keeps of a write that failed.
pub record LogSink : Type 0 where
  pub open_file : Bool
  pub file : File
  pub failure : Option String
  pub path : String

-- NewJSONLSink and NewEventSink: what os.OpenFile answers, and the path.
unfoldable pub new_log : String → Result File → String → Result LogSink
new_log what opened path = elim opened [
  | err e ↦ err (concat ("opening " ∷ what ∷ " " ∷ quote path ∷ ": " ∷ e ∷ []))
  | ok f ↦ ok (record { open_file = true; file = f; failure = none; path = path })
]

-- Encode, in an encoder without an error: a value that has no JSON is an error that it does not keep,
-- and writes nothing.
unfoldable pub encode_line : Result String → LogSink → LogSink × Option String
encode_line (err e) s = (s, some e)
encode_line (ok line) s = let r = put line s.file in (record s { file = r.0; failure = r.1 }, r.1)

-- Encode: an encoder returns the error that it keeps, and writes nothing.
unfoldable pub encode_value : Result String → LogSink → LogSink × Option String
encode_value encoded s = elim s.failure [ some e ↦ (s, some e) | none ↦ encode_line encoded s ]

-- JSONLSink.Write.
unfoldable pub jsonl_write : (Alert → Result String) → Alert → LogSink → LogSink × Option String
jsonl_write encode a s =
    let r = encode_value (encode a) s in
    if not s.open_file
    then (s, closed_error "alert log" s.path)
    else (r.0, wrap "writing alert to" s.path r.1)

-- JSONLSink.Close: Sync, then Close, whose error comes first.
unfoldable pub jsonl_close : LogSink → LogSink × Option String
jsonl_close s =
    let synced = call s.file in
    let shut = call synced.0 in
    let failure : Option String = elim shut.1 [
      | some e ↦ wrap "closing alert log" s.path (some e)
      | none ↦ wrap "syncing alert log" s.path synced.1
    ] in
    if not s.open_file then (s, none) else (record s { open_file = false; file = shut.0 }, failure)

-- EventSink.WriteEvent; `format_time` is the text of a time in a record.
unfoldable pub event_write :
    (ℤ → String) → (Record → Result String) → Event → LogSink → LogSink × Option String
event_write format_time encode ev s =
    let r = encode_value (encode (new_record format_time ev)) s in
    if not s.open_file
    then (s, closed_error "debug log" s.path)
    else (r.0, wrap "writing event to" s.path r.1)

-- EventSink.Close.
unfoldable pub event_close : LogSink → LogSink × Option String
event_close s =
    let shut = call s.file in
    if not s.open_file
    then (s, none)
    else (record s { open_file = false; file = shut.0 }, wrap "closing debug log" s.path shut.1)

pub record ConsoleSink : Type 0 where
  pub writer : File
  pub color : Bool
  pub min_severity : Severity

-- NewConsoleSink.
unfoldable pub new_console : File → Bool → Bool → Bool → Severity → ConsoleSink
new_console writer no_color terminal force min_severity = record {
  writer = writer;
  color = force || should_color no_color terminal;
  min_severity = min_severity;
}

unfoldable pub wrap_console : Option String → Option String
wrap_console none = none
wrap_console (some e) = some (concat ("writing alert to console: " ∷ e ∷ []))

-- ConsoleSink.Write.
unfoldable pub console_write : (ℤ → String) → Alert → ConsoleSink → ConsoleSink × Option String
console_write clock a s =
    let r = put (format_alert clock s.color a) s.writer in
    if ltb a.severity s.min_severity
    then (s, none)
    else (record s { writer = r.0 }, wrap_console r.1)

-- if err != nil { errs = append(errs, err) }
abbrev pub with_error : List String → Option String → List String
with_error errs none = errs
with_error errs (some e) = errs ++ (e ∷ [])

-- The sinks of the program.
pub data Sink : Type 0 where
  jsonl : LogSink → Sink
  console : ConsoleSink → Sink
  display : Dashboard → Sink

module _ (encode : Alert → Result String) (clock : ℤ → String) where
  unfoldable pub sink_write : Alert → Sink → Sink × Option String
  sink_write a (jsonl s) = let r = jsonl_write encode a s in (jsonl r.0, r.1)
  sink_write a (console s) = let r = console_write clock a s in (console r.0, r.1)
  sink_write a (display d) = (display (write a d), none)

  -- The loop of MultiSink.Write; a sink may be nil.
  unfoldable pub write_each :
      Alert → List (Option Sink) → List String → List (Option Sink) × List String
  write_each a [] errs = ([], errs)
  write_each a (none ∷ sinks) errs =
      let later = write_each a sinks errs in (none ∷ later.0, later.1)
  write_each a (some s ∷ sinks) errs =
      let r = sink_write a s in
      let later = write_each a sinks (with_error errs r.1) in (some r.0 ∷ later.0, later.1)

-- errors.Join, on errors that are not nil.
unfoldable pub join_errors : List String → Option String
join_errors [] = none
join_errors (e ∷ errs) = some (join "\n" (e ∷ errs))

-- MultiSink.Write.
unfoldable pub multi_write :
    (Alert → Result String)
    → (ℤ → String)
    → Alert
    → List (Option Sink)
    → List (Option Sink) × Option String
multi_write encode clock a sinks =
    let r = write_each encode clock a sinks [] in (r.0, join_errors r.1)

-- Close of a sink. `frame` is what the dashboard's last Paint answers and `cursor` its last write.
unfoldable pub sink_close : Option String → Option String → Sink → Sink × Closing
sink_close frame cursor (jsonl s) = let r = jsonl_close s in (jsonl r.0, returns r.1)
sink_close frame cursor (console s) = (console s, returns none)
sink_close frame cursor (display d) = let r = close frame cursor d in (display r.0, r.1)

-- The loop of MultiSink.Close: a sink that waits for ever keeps the ones behind it open.
unfoldable pub close_each :
    Option String → Option String → List (Option Sink) → List String → List (Option Sink) × Closing
close_each frame cursor [] errs = ([], returns (join_errors errs))
close_each frame cursor (none ∷ sinks) errs =
    let later = close_each frame cursor sinks errs in (none ∷ later.0, later.1)
close_each frame cursor (some s ∷ sinks) errs =
    let r = sink_close frame cursor s in
    elim r.1 [
      | waits ↦ (some r.0 ∷ sinks, waits)
      | returns failure ↦
          let later = close_each frame cursor sinks (with_error errs failure) in
          (some r.0 ∷ later.0, later.1)
    ]

-- MultiSink.Close.
unfoldable pub multi_close :
    Option String → Option String → List (Option Sink) → List (Option Sink) × Closing
multi_close frame cursor sinks = close_each frame cursor sinks []
