-- ===== src/Tests/Loader.antt =====
-- The properties of the loader at concrete inputs.
use krnl_sentry.Base.{
  ℕ, pos, String, true, List, [], ◌∷◌, ◌++◌, none, if◌then◌else◌, ◌==◌, string_eq, ◌≡◌, refl, arith,
  format_uint, concat, map,
}
use krnl_sentry.Events.Record.{ok, err}
use krnl_sentry.Loader.Decode.{KrnlSentryEvent, parse_record, take}
use krnl_sentry.Loader.Decode.Bytes.{zeros}
use krnl_sentry.Loader.Decode.Layout.{event_bytes, IsSent}
use krnl_sentry.Loader.Decode.Parsing.{filled, read_event, short_record, parse_record-event_bytes}
use krnl_sentry.Loader.Collector.{Attached, linked, absent, Kernel, new_collector}
use krnl_sentry.Loader.Collector.Attach.{IsComplete, new_collector-IsComplete}

-- The arguments "sh" and "x" and an empty slot.
abbrev sent_args : List (List ℕ × ℕ)
sent_args = (115 ∷ 104 ∷ [], 62) ∷ (120 ∷ [], 63) ∷ ([], 64) ∷ []

-- "sh" and "/bin/sh", in their buffers.
abbrev sent : KrnlSentryEvent
sent = record {
  timestamp = 5000000;
  pid = 1000;
  tgid = 1000;
  uid = 1000;
  gid = 1000;
  ppid = 900;
  syscall_id = 1;
  ret = pos 0;
  arg0 = pos 0;
  arg1 = pos 0;
  arg2 = pos 0;
  daddr = 0;
  dport = 0;
  family = 0;
  argc = 2;
  flags = 0;
  comm = (115 ∷ 104 ∷ []) ++ zeros 14;
  path = (47 ∷ 98 ∷ 105 ∷ 110 ∷ 47 ∷ 115 ∷ 104 ∷ []) ++ zeros 249;
  argv = map filled sent_args;
}

abbrev text : List ℕ → String
text bytes = concat (map format_uint bytes)

sent-IsSent : IsSent sent
sent-IsSent = record {
  timestamp = omega arith;
  pid = omega arith;
  tgid = omega arith;
  uid = omega arith;
  gid = omega arith;
  ppid = omega arith;
  syscall_id = omega arith;
  ret = omega arith;
  arg0 = omega arith;
  arg1 = omega arith;
  arg2 = omega arith;
  daddr = omega arith;
  dport = omega arith;
  family = omega arith;
  argc = omega arith;
  flags = omega arith;
  comm = refl;
  path = refl;
  slots = refl;
  argv = (refl, (refl, (refl, tt)));
}

parse_record-event_bytes_example :
    (parse_record text (event_bytes sent [])
      ≡ ok (
          read_event text sent
            (115 ∷ 104 ∷ [])
            (47 ∷ 98 ∷ 105 ∷ 110 ∷ 47 ∷ 115 ∷ 104 ∷ [])
            (text (115 ∷ 104 ∷ []) ∷ text (120 ∷ []) ∷ [])))
    × (parse_record text (take 40 (event_bytes sent [])) ≡ err (short_record text 40))
parse_record-event_bytes_example =
    parse_record-event_bytes text sent [] (115 ∷ 104 ∷ [])
      (47 ∷ 98 ∷ 105 ∷ 110 ∷ 47 ∷ 115 ∷ 104 ∷ []) sent_args 14 249 40 sent-IsSent refl
      (omega arith, (omega arith, tt)) refl
      (
        omega arith,
        (
          omega arith,
          (omega arith, (omega arith, (omega arith, (omega arith, (omega arith, tt))))),
        ),
      )
      refl ((omega arith, (omega arith, tt)), ((omega arith, tt), (tt, tt))) (omega arith)

-- A kernel of arm64: it has no dup2.
abbrev answers : String → String → Attached
answers group name = if name == "sys_enter_dup2" then absent "no such file or directory" else linked

abbrev kernel : Kernel
kernel = record {
  memlock = none;
  load_objects = none;
  put_config = none;
  has_program = λ name. true;
  attach = answers;
  open_reader = none;
  clock_monotonic = ok (pos 1000);
  detach = λ name. none;
  close_reader = none;
  close_objects = none;
}

new_collector-IsComplete_example : IsComplete kernel (new_collector kernel)
new_collector-IsComplete_example = new_collector-IsComplete kernel
