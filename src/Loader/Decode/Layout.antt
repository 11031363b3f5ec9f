-- ===== src/Loader/Decode/Layout.antt =====
-- The layout of the record: what the program writes is what parseRecord reads.
use krnl_sentry.Base.{
  ℕ, ℤ, pos, negsuc, zero, suc, ◌+◌, ◌*◌, ◌^◌, ◌≤◌, ◌<◌, List, [], ◌∷◌, ◌++◌, nat_eq, ◌≡◌, refl, ap,
  subst, arith, length, length-append, All, signed64, unsigned64,
}
use mathlib.Core.List.{append_assoc}
use krnl_sentry.Loader.Decode.{
  take, KrnlSentryEvent, comm_len, path_len, arg_len, max_argv, event_size, field, word,
  signed_word, arrays, cast,
}
use krnl_sentry.Loader.Decode.Bytes.{
  le_bytes, byte_limit, length-le_bytes, le_value-le_bytes, take-append, drop-append,
}

abbrev pub argv_bytes : List (List ℕ) → List ℕ
argv_bytes [] = []
argv_bytes (arg ∷ argv) = arg ++ argv_bytes argv

-- What the kernel writes for an event: the fields of struct event in their order.
abbrev pub event_bytes : KrnlSentryEvent → List ℕ → List ℕ
event_bytes e extra =
    le_bytes 8 e.timestamp
    ++ (le_bytes 4 e.pid
        ++ (le_bytes 4 e.tgid
            ++ (le_bytes 4 e.uid
                ++ (le_bytes 4 e.gid
                    ++ (le_bytes 4 e.ppid
                        ++ (le_bytes 4 e.syscall_id
                            ++ (le_bytes 8 (unsigned64 e.ret)
                                ++ (le_bytes 8 (unsigned64 e.arg0)
                                    ++ (le_bytes 8 (unsigned64 e.arg1)
                                        ++ (le_bytes 8 (unsigned64 e.arg2)
                                            ++ (le_bytes 4 e.daddr
                                                ++ (le_bytes 2 e.dport
                                                    ++ (le_bytes 2 e.family
                                                        ++ (le_bytes 1 e.argc
                                                            ++ (le_bytes 3 0
                                                            ++ (le_bytes 4 e.flags
                                                            ++ (e.comm
                                                            ++ (e.path
                                                            ++ (argv_bytes e.argv
                                                            ++ extra)))))))))))))))))))

word-le_bytes :
    (n v : ℕ) → v < byte_limit n → (rest : List ℕ) → word n (le_bytes n v ++ rest) ≡ (v, rest)
unfolding word
word-le_bytes n v h rest =
    let size = length-le_bytes n v in
    rw
      (
        take-append (le_bytes n v) rest n size,
        drop-append (le_bytes n v) rest n size,
        le_value-le_bytes n v h,
      )
      refl

-- A number of 8 bytes with a sign.
abbrev pub IsInt64 : ℤ → Type 0
IsInt64 (pos n) = n < 2 ^ 63
IsInt64 (negsuc n) = n < 2 ^ 63

signed64-back : (z : ℤ) → IsInt64 z → (signed64 (unsigned64 z) ≡ z) × (unsigned64 z < byte_limit 8)
unfolding signed64 unsigned64
signed64-back (pos n) h = ground (arith, h)
signed64-back (negsuc n) h = ground (arith, h)

signed_word-le_bytes :
    (z : ℤ)
    → IsInt64 z
    → (rest : List ℕ) → signed_word (le_bytes 8 (unsigned64 z) ++ rest) ≡ (z, rest)
unfolding signed_word
signed_word-le_bytes z h rest =
    let b = le_bytes 8 (unsigned64 z) in
    let size = length-le_bytes 8 (unsigned64 z) in
    let (back, small) = signed64-back z h in
    rw
      (
        take-append b rest 8 size,
        drop-append b rest 8 size,
        le_value-le_bytes 8 (unsigned64 z) small,
        back,
      )
      refl

field-append :
    (n : ℕ) (front : List ℕ)
    → length front ≡ n
    → (rest : List ℕ) → field n (front ++ rest) ≡ (front, rest)
unfolding field
field-append n front h rest = rw (take-append front rest n h, drop-append front rest n h) refl

arrays-append :
    (argv : List (List ℕ)) (extra : List ℕ)
    → All (λ arg. length arg ≡ arg_len) argv
    → arrays (length argv) (argv_bytes argv ++ extra) ≡ argv
unfolding arrays
arrays-append [] extra h = refl
arrays-append (arg ∷ argv) extra h =
    rw
      (
        append_assoc arg (argv_bytes argv) extra,
        take-append arg (argv_bytes argv ++ extra) arg_len h.0,
        drop-append arg (argv_bytes argv ++ extra) arg_len h.0,
      )
      (ap (λ l. arg ∷ l) (arrays-append argv extra h.1))

-- The fields are in the range of their C types.
pub record IsSent (e : KrnlSentryEvent) : Type 0 where
  pub timestamp : e.timestamp < byte_limit 8
  pub pid : e.pid < byte_limit 4
  pub tgid : e.tgid < byte_limit 4
  pub uid : e.uid < byte_limit 4
  pub gid : e.gid < byte_limit 4
  pub ppid : e.ppid < byte_limit 4
  pub syscall_id : e.syscall_id < byte_limit 4
  pub ret : IsInt64 e.ret
  pub arg0 : IsInt64 e.arg0
  pub arg1 : IsInt64 e.arg1
  pub arg2 : IsInt64 e.arg2
  pub daddr : e.daddr < byte_limit 4
  pub dport : e.dport < byte_limit 2
  pub family : e.family < byte_limit 2
  pub argc : e.argc < byte_limit 1
  pub flags : e.flags < byte_limit 4
  pub comm : length e.comm ≡ comm_len
  pub path : length e.path ≡ path_len
  pub slots : length e.argv ≡ max_argv
  pub argv : All (λ arg. length arg ≡ arg_len) e.argv

pub cast-event_bytes :
    (e : KrnlSentryEvent) (extra : List ℕ) → IsSent e → cast (event_bytes e extra) ≡ e
unfolding cast
cast-event_bytes e extra h =
    simp
      (
        word-le_bytes 8 e.timestamp h.timestamp,
        word-le_bytes 4 e.pid h.pid,
        word-le_bytes 4 e.tgid h.tgid,
        word-le_bytes 4 e.uid h.uid,
        word-le_bytes 4 e.gid h.gid,
        word-le_bytes 4 e.ppid h.ppid,
        word-le_bytes 4 e.syscall_id h.syscall_id,
        signed_word-le_bytes e.ret h.ret,
        signed_word-le_bytes e.arg0 h.arg0,
        signed_word-le_bytes e.arg1 h.arg1,
        signed_word-le_bytes e.arg2 h.arg2,
        word-le_bytes 4 e.daddr h.daddr,
        word-le_bytes 2 e.dport h.dport,
        word-le_bytes 2 e.family h.family,
        word-le_bytes 1 e.argc h.argc,
        word-le_bytes 3 0 (omega arith),
        word-le_bytes 4 e.flags h.flags,
        field-append comm_len e.comm h.comm,
        field-append path_len e.path h.path,
      )
      (ap (λ l. record e { argv = l }) args)
  where
    args : arrays max_argv (argv_bytes e.argv ++ extra) ≡ e.argv
    args =
        subst (λ n. arrays n (argv_bytes e.argv ++ extra) ≡ e.argv) h.slots
          (arrays-append e.argv extra h.argv)

length-argv_bytes :
    (argv : List (List ℕ))
    → All (λ arg. length arg ≡ arg_len) argv
    → length (argv_bytes argv) ≡ 64 * length argv
length-argv_bytes [] h = omega arith
length-argv_bytes (arg ∷ argv) h =
    omega (arith, length-append arg (argv_bytes argv), h.0, length-argv_bytes argv h.1)

length-piece : (n v : ℕ) (rest : List ℕ) → length (le_bytes n v ++ rest) ≡ n + length rest
length-piece n v rest = omega (arith, length-append (le_bytes n v) rest, length-le_bytes n v)

-- A record has the size of the struct, and what lies behind it.
pub length-event_bytes :
    (e : KrnlSentryEvent) (extra : List ℕ)
    → IsSent e
    → length (event_bytes e extra) ≡ event_size + length extra
length-event_bytes e extra h =
    let tail = argv_bytes e.argv ++ extra in
    let rest = e.path ++ tail in
    simp (length-piece) (
      omega (
        arith,
        length-append e.comm rest,
        length-append e.path tail,
        length-append (argv_bytes e.argv) extra,
        length-argv_bytes e.argv h.argv,
        h.comm,
        h.path,
        h.slots,
      ))

pub length-take : (n : ℕ) (b : List ℕ) → n ≤ length b → length (take n b) ≡ n
length-take zero b h = refl
length-take (suc n) [] h = absurd (omega (arith, h))
length-take (suc n) (x ∷ b) h = ap suc (length-take n b (omega (arith, h)))
