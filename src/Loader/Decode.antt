-- ===== src/Loader/Decode.antt =====
-- ebpfloader/decode.go, with the layout of the record that bpf/event.h declares, on the
-- little-endian machines that the program is generated for. A Go string is a row of bytes here;
-- `text` stands for reading one as a text.
pub mod Bytes
pub mod Layout
pub mod Parsing
use krnl_sentry.Base.{
  ℕ, ℤ, zero, suc, ◌+◌, ◌-◌, ◌*◌, ◌/◌, ◌%◌, ◌^◌, ltb, String, Bool, List, [], ◌∷◌, ◌++◌, map,
  if◌then◌else◌, ◌==◌, nat_eq, length, drop, concat, format_uint, signed64, unsigned64,
}
use krnl_sentry.Events.Event.{Raw}
use krnl_sentry.Events.Record.{Result, ok, err}

-- The first n bytes.
abbrev pub take : ℕ → List ℕ → List ℕ
take zero b = []
take (suc n) [] = []
take (suc n) (x ∷ b) = x ∷ take n b

-- The number that some bytes hold, the least significant first.
unfoldable pub le_value : List ℕ → ℕ
le_value [] = 0
le_value (x ∷ b) = x + 256 * le_value b

-- The loop of goString: the index of the first NUL, or the length.
unfoldable pub nul_index : List ℕ → ℕ
nul_index [] = 0
nul_index (x ∷ b) = let n = nul_index b in if x == 0 then 0 else suc n

-- goString.
unfoldable pub go_string : List ℕ → List ℕ
go_string b = let n = nul_index b in if n == 0 then [] else take n b

-- KrnlSentryEvent: struct event.
pub record KrnlSentryEvent : Type 0 where
  pub timestamp : ℕ
  pub pid : ℕ
  pub tgid : ℕ
  pub uid : ℕ
  pub gid : ℕ
  pub ppid : ℕ
  pub syscall_id : ℕ
  pub ret : ℤ
  pub arg0 : ℤ
  pub arg1 : ℤ
  pub arg2 : ℤ
  pub daddr : ℕ
  pub dport : ℕ
  pub family : ℕ
  pub argc : ℕ
  pub flags : ℕ
  pub comm : List ℕ
  pub path : List ℕ
  pub argv : List (List ℕ)

abbrev pub comm_len : ℕ
comm_len = 16

abbrev pub path_len : ℕ
path_len = 256

abbrev pub arg_len : ℕ
arg_len = 64

abbrev pub max_argv : ℕ
max_argv = 3

abbrev pub event_size : ℕ
event_size = 544

-- A field of n bytes, and the bytes behind it.
unfoldable pub field : ℕ → List ℕ → List ℕ × List ℕ
field n b = (take n b, drop n b)

-- An unsigned field, and a signed one of 8 bytes.
unfoldable pub word : ℕ → List ℕ → ℕ × List ℕ
unfolding field
word n b = (le_value (take n b), drop n b)

unfoldable pub signed_word : List ℕ → ℤ × List ℕ
signed_word b = (signed64 (le_value (take 8 b)), drop 8 b)

-- n arrays of the length of an argument.
unfoldable pub arrays : ℕ → List ℕ → List (List ℕ)
arrays zero b = []
arrays (suc n) b = take arg_len b ∷ arrays n (drop arg_len b)

-- The cast of the bytes to the struct.
unfoldable pub cast : List ℕ → KrnlSentryEvent
cast b =
    let (timestamp, b1) = word 8 b in
    let (pid, b2) = word 4 b1 in
    let (tgid, b3) = word 4 b2 in
    let (uid, b4) = word 4 b3 in
    let (gid, b5) = word 4 b4 in
    let (ppid, b6) = word 4 b5 in
    let (syscall_id, b7) = word 4 b6 in
    let (ret, b8) = signed_word b7 in
    let (arg0, b9) = signed_word b8 in
    let (arg1, b10) = signed_word b9 in
    let (arg2, b11) = signed_word b10 in
    let (daddr, b12) = word 4 b11 in
    let (dport, b13) = word 2 b12 in
    let (family, b14) = word 2 b13 in
    let (argc, b15) = word 1 b14 in
    let (pad, b16) = word 3 b15 in
    let (flags, b17) = word 4 b16 in
    let (comm, b18) = field comm_len b17 in
    let (path, b19) = field path_len b18 in
    record {
      timestamp = timestamp;
      pid = pid;
      tgid = tgid;
      uid = uid;
      gid = gid;
      ppid = ppid;
      syscall_id = syscall_id;
      ret = ret;
      arg0 = arg0;
      arg1 = arg1;
      arg2 = arg2;
      daddr = daddr;
      dport = dport;
      family = family;
      argc = argc;
      flags = flags;
      comm = comm;
      path = path;
      argv = arrays max_argv b19;
    }

-- The arguments that argc counts, at most as many as there are slots.
unfoldable pub first_args : ℕ → List (List ℕ) → List (List ℕ)
first_args zero argv = []
first_args (suc n) [] = []
first_args (suc n) (arg ∷ argv) = go_string arg ∷ first_args n argv

module _ (text : List ℕ → String) where
  -- The copy of the fields, with argc clamped.
  unfoldable pub to_raw : KrnlSentryEvent → Raw
  unfolding first_args
  to_raw e =
      let argc = if ltb (length e.argv) e.argc then length e.argv else e.argc in
      record {
        timestamp = e.timestamp;
        pid = e.pid;
        tgid = e.tgid;
        uid = e.uid;
        gid = e.gid;
        ppid = e.ppid;
        syscall_id = e.syscall_id;
        ret = e.ret;
        arg0 = e.arg0;
        arg1 = e.arg1;
        arg2 = e.arg2;
        daddr = e.daddr;
        dport = e.dport;
        family = e.family;
        flags = e.flags;
        comm = text (go_string e.comm);
        path = text (go_string e.path);
        argv = map text (first_args argc e.argv);
      }

  -- parseRecord.
  unfoldable pub parse_record : List ℕ → Result Raw
  parse_record b =
      if ltb (length b) event_size
      then err (
          concat (
            "short event record: got "
            ∷ format_uint (length b)
            ∷ " bytes, want "
            ∷ format_uint event_size
            ∷ " (kernel object and agent are out of step)"
            ∷ []))
      else ok (to_raw (cast b))
