-- ===== src/Loader/Decode/Parsing.antt =====
-- What parseRecord of ebpfloader/decode.go reads of a record that the program wrote.
use krnl_sentry.Base.{
  ℕ, zero, suc, ◌≤◌, ◌<◌, ltb, String, true, false, List, [], ◌∷◌, ◌++◌, map, if◌then◌else◌, nat_eq,
  ◌≡◌, refl, ap, ◌∙◌, arith, length, All, concat, format_uint,
}
use krnl_sentry.Events.Event.{Raw}
use krnl_sentry.Events.Record.{ok, err}
use krnl_sentry.Loader.Decode.{
  take, go_string, KrnlSentryEvent, max_argv, event_size, cast, first_args, to_raw, parse_record,
}
use krnl_sentry.Loader.Decode.Bytes.{NoNul, zeros, go_string-append}
use krnl_sentry.Loader.Decode.Layout.{
  event_bytes, IsSent, cast-event_bytes, length-event_bytes, length-take,
}

-- A text in its buffer, with a number of NULs behind it.
abbrev pub filled : List ℕ × ℕ → List ℕ
filled arg = arg.0 ++ zeros arg.1

module _ (text : List ℕ → String) where
  parse_record-long :
      (b : List ℕ) → event_size ≤ length b → parse_record text b ≡ ok (to_raw text (cast b))
  unfolding parse_record
  parse_record-long b h =
      let enough : ltb (length b) event_size ≡ false = ground (arith, h) in rw enough refl

  -- The message about a record that is too short.
  abbrev pub short_record : ℕ → String
  short_record size = concat (
      "short event record: got "
      ∷ format_uint size
      ∷ " bytes, want "
      ∷ format_uint event_size
      ∷ " (kernel object and agent are out of step)"
      ∷ [])

  parse_record-short :
      (b : List ℕ) → length b < event_size → parse_record text b ≡ err (short_record (length b))
  unfolding parse_record
  parse_record-short b h =
      let few : ltb (length b) event_size ≡ true = ground (arith, h) in rw few refl

  -- The arguments that argc counts, at most three, without their NULs.
  abbrev pub texts_of : ℕ → List (List ℕ × ℕ) → List String
  texts_of zero args = []
  texts_of (suc n) [] = []
  texts_of (suc n) (arg ∷ args) = text arg.0 ∷ texts_of n args

  -- What is read of an event: its numbers as they were sent, and the given texts.
  abbrev pub read_event : KrnlSentryEvent → List ℕ → List ℕ → List String → Raw
  read_event e name file argv = record {
    timestamp = e.timestamp;
    pid = e.pid;
    tgid = e.tgid;
    uid = e.uid;
    gid = e.gid;
    ppid = e.ppid;
    syscall_id = e.syscall_id;
    ret = e.ret;
    arg0 = e.arg0;
    arg1 = e.arg1;
    arg2 = e.arg2;
    daddr = e.daddr;
    dport = e.dport;
    family = e.family;
    flags = e.flags;
    comm = text name;
    path = text file;
    argv = argv;
  }

  first_args-texts_of :
      (n : ℕ) (args : List (List ℕ × ℕ))
      → All (λ arg. NoNul arg.0) args
      → map text (first_args n (map filled args)) ≡ texts_of n args
  unfolding first_args
  first_args-texts_of zero args h = refl
  first_args-texts_of (suc n) [] h = refl
  first_args-texts_of (suc n) (arg ∷ args) h =
      ap (λ b. text b ∷ map text (first_args n (map filled args)))
        (go_string-append arg.0 arg.1 h.0)
      ∙ ap (λ ss. text arg.0 ∷ ss) (first_args-texts_of n args h.1)

  to_raw-read_event :
      (e : KrnlSentryEvent) (name file : List ℕ) (fill more : ℕ) (args : List (List ℕ × ℕ))
      → length e.argv ≡ max_argv
      → e.comm ≡ name ++ zeros fill
      → NoNul name
      → e.path ≡ file ++ zeros more
      → NoNul file
      → e.argv ≡ map filled args
      → All (λ arg. NoNul arg.0) args
      → to_raw text e
        ≡ read_event e name file (texts_of (if ltb max_argv e.argc then max_argv else e.argc) args)
  unfolding to_raw
  to_raw-read_event e name file fill more args slots comm name_clean path file_clean argv clean =
      let argc = if ltb max_argv e.argc then max_argv else e.argc in
      let name_read = ap text (ap go_string comm ∙ go_string-append name fill name_clean) in
      let file_read = ap text (ap go_string path ∙ go_string-append file more file_clean) in
      let args_read =
        ap (λ n. map text (first_args (if ltb n e.argc then n else e.argc) e.argv)) slots
        ∙ ap (λ l. map text (first_args argc l)) argv
        ∙ first_args-texts_of argc args clean in
      λ i. record (read_event e name file []) {
        comm = name_read i;
        path = file_read i;
        argv = args_read i;
      }

  -- Let the fields of an event be in the range of their C types, and its command, its path and its
  -- three slots for arguments be C strings in their buffers, filled up with NULs. From the bytes that
  -- the struct lays out, with whatever bytes behind them, parseRecord reads the event back: every
  -- number as it was sent, in its field, the command and the path without their NULs, and the
  -- arguments without theirs, as many as argc says, but at most three. From the first bytes of such
  -- a record alone, fewer than the 544 of the struct, it reads nothing and returns the error that
  -- names their number.
  pub parse_record-event_bytes :
      (e : KrnlSentryEvent) (extra name file : List ℕ) (args : List (List ℕ × ℕ))
      (fill more cut : ℕ)
      → IsSent e
      → e.comm ≡ name ++ zeros fill
      → NoNul name
      → e.path ≡ file ++ zeros more
      → NoNul file
      → e.argv ≡ map filled args
      → All (λ arg. NoNul arg.0) args
      → cut < event_size
      → (parse_record text (event_bytes e extra)
          ≡ ok (
              read_event e name file
                (texts_of (if ltb max_argv e.argc then max_argv else e.argc) args)))
        × (parse_record text (take cut (event_bytes e extra)) ≡ err (short_record cut))
  parse_record-event_bytes e extra name file args fill more cut sent comm name_clean path file_clean
        argv clean small =
      let b = event_bytes e extra in
      let size = length-event_bytes e extra sent in
      let few = length-take cut b (omega (arith, size, small)) in
      (
        parse_record-long b (omega (arith, size))
            ∙ ap (λ f. ok (to_raw text f)) (cast-event_bytes e extra sent)
            ∙ ap (λ r. ok r)
                (to_raw-read_event e name file fill more args sent.slots comm name_clean path
                  file_clean argv clean),
        parse_record-short (take cut b) (omega (arith, few, small))
            ∙ ap (λ n. err (short_record n)) few,
      )
