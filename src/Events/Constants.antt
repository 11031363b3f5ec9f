-- ===== src/Events/Constants.antt =====
-- events/constants.go: the names of flags, requests, families and descriptors. An int64 argument
-- is an integer; where the code masks its bits, they are those of its two's complement.
use krnl_sentry.Base.{
  ℕ, ◌*◌, ◌/◌, ◌%◌, String, Bool, ◌||◌, List, [], ◌∷◌, ◌++◌, none, some, ◌==◌, ◌^◌, nat_eq, int_eq,
  string_eq, if◌then◌else◌, concat, join, ℤ, pos, negsuc, signed64, unsigned64, and_not, bit_and,
  bit_or, format_base, format_uint, format_int,
}
use krnl_sentry.Dict.{lookup}

-- open(2) flags.
abbrev pub o_accmode : ℕ
o_accmode = 0o3

abbrev pub o_creat : ℕ
o_creat = 0o100

abbrev pub o_tmpfile : ℕ
o_tmpfile = 0o20200000

unfoldable pub open_flag_names : List (ℕ × String)
open_flag_names =
    (o_creat, "O_CREAT")
    ∷ (0o200, "O_EXCL")
    ∷ (0o1000, "O_TRUNC")
    ∷ (0o2000, "O_APPEND")
    ∷ (0o400, "O_NOCTTY")
    ∷ (0o4000, "O_NONBLOCK")
    ∷ (0o10000, "O_DSYNC")
    ∷ (0o40000, "O_DIRECT")
    ∷ (0o100000, "O_LARGEFILE")
    ∷ (0o200000, "O_DIRECTORY")
    ∷ (0o400000, "O_NOFOLLOW")
    ∷ (0o1000000, "O_NOATIME")
    ∷ (0o2000000, "O_CLOEXEC")
    ∷ (0o10000000, "O_PATH")
    ∷ []

-- Whether all bits of `bit` are set.
abbrev pub has_bits : ℕ → ℕ → Bool
has_bits w bit = bit_and w bit == bit

-- "0x%x" of a word.
unfoldable pub hex : ℕ → String
unfolding concat format_base
hex w = concat ("0x" ∷ format_base 16 w ∷ [])

access_mode : ℕ → String
access_mode w =
    let mode = bit_and w o_accmode in
    if mode == 0
    then "O_RDONLY"
    else if mode == 1
    then "O_WRONLY"
    else if mode == 2
    then "O_RDWR"
    else "O_ACCMODE_INVALID"

-- The loop over the flags: the names found, and the bits that are left.
unfoldable pub flag_parts : List (ℕ × String) → ℕ → List String × ℕ
flag_parts [] remaining = ([], remaining)
flag_parts ((bit, name) ∷ rest) remaining =
    let hit = flag_parts rest (and_not remaining bit) in
    let miss = flag_parts rest remaining in
    if has_bits remaining bit then (name ∷ hit.0, hit.1) else miss

-- What is left is shown as hex.
abbrev rest_part : ℕ → List String
rest_part w = if w == 0 then [] else hex w ∷ []

unfoldable pub format_open_flags : ℤ → String
unfolding access_mode flag_parts open_flag_names hex join
format_open_flags flags =
    let w = unsigned64 flags in
    let remaining = and_not w o_accmode in
    let tmp = has_bits remaining o_tmpfile in
    let after = if tmp then and_not remaining o_tmpfile else remaining in
    let named = flag_parts open_flag_names after in
    join "|"
      ((access_mode w ∷ (if tmp then "O_TMPFILE" ∷ [] else [])) ++ (named.0 ++ rest_part named.1))

unfoldable pub format_dirfd : ℤ → String
unfolding format_int
format_dirfd fd = if fd == negsuc 99 then "AT_FDCWD" else format_int fd

abbrev at_symlink_nofollow : ℕ
at_symlink_nofollow = 0x100

abbrev at_empty_path : ℕ
at_empty_path = 0x1000

-- The name of a mask, if one of its bits is set.
abbrev flag_part : ℕ → ℕ → String → List String
flag_part w bit name = if bit_and w bit == 0 then [] else name ∷ []

unfoldable pub format_execveat_flags : ℤ → String
unfolding hex join
format_execveat_flags flags =
    let w = unsigned64 flags in
    if flags == pos 0
    then "0"
    else join "|" (
        flag_part w at_empty_path "AT_EMPTY_PATH"
        ++ (flag_part w at_symlink_nofollow "AT_SYMLINK_NOFOLLOW"
            ++ rest_part (and_not w (bit_or at_empty_path at_symlink_nofollow))))

-- ptrace(2) requests.
abbrev pub ptrace_poketext : ℤ
ptrace_poketext = pos 4

abbrev pub ptrace_pokedata : ℤ
ptrace_pokedata = pos 5

abbrev pub ptrace_pokeuser : ℤ
ptrace_pokeuser = pos 6

abbrev pub ptrace_setregs : ℤ
ptrace_setregs = pos 13

abbrev pub ptrace_setfpregs : ℤ
ptrace_setfpregs = pos 15

abbrev pub ptrace_attach : ℤ
ptrace_attach = pos 16

abbrev pub ptrace_setregset : ℤ
ptrace_setregset = pos 0x4205

abbrev pub ptrace_seize : ℤ
ptrace_seize = pos 0x4206

unfoldable pub ptrace_request_names : List (ℤ × String)
ptrace_request_names =
    (pos 0, "PTRACE_TRACEME")
    ∷ (pos 1, "PTRACE_PEEKTEXT")
    ∷ (pos 2, "PTRACE_PEEKDATA")
    ∷ (pos 3, "PTRACE_PEEKUSER")
    ∷ (ptrace_poketext, "PTRACE_POKETEXT")
    ∷ (ptrace_pokedata, "PTRACE_POKEDATA")
    ∷ (ptrace_pokeuser, "PTRACE_POKEUSER")
    ∷ (pos 7, "PTRACE_CONT")
    ∷ (pos 8, "PTRACE_KILL")
    ∷ (pos 9, "PTRACE_SINGLESTEP")
    ∷ (pos 12, "PTRACE_GETREGS")
    ∷ (ptrace_setregs, "PTRACE_SETREGS")
    ∷ (pos 14, "PTRACE_GETFPREGS")
    ∷ (ptrace_setfpregs, "PTRACE_SETFPREGS")
    ∷ (ptrace_attach, "PTRACE_ATTACH")
    ∷ (pos 17, "PTRACE_DETACH")
    ∷ (pos 24, "PTRACE_SYSCALL")
    ∷ (pos 0x4200, "PTRACE_SETOPTIONS")
    ∷ (pos 0x4204, "PTRACE_GETREGSET")
    ∷ (ptrace_setregset, "PTRACE_SETREGSET")
    ∷ (ptrace_seize, "PTRACE_SEIZE")
    ∷ (pos 0x4207, "PTRACE_INTERRUPT")
    ∷ (pos 0x4208, "PTRACE_LISTEN")
    ∷ []

unfoldable pub ptrace_request_name : ℤ → String
unfolding concat format_int
ptrace_request_name req = elim (lookup req ptrace_request_names) [
  | some name ↦ name
  | none ↦ concat ("PTRACE_UNKNOWN(" ∷ format_int req ∷ ")" ∷ [])
]

unfoldable pub is_ptrace_memory_op : ℤ → Bool
is_ptrace_memory_op req =
    req == pos 1
    || req == pos 2
    || req == pos 3
    || req == ptrace_poketext
    || req == ptrace_pokedata
    || req == ptrace_pokeuser

unfoldable pub address_family_names : List (ℕ × String)
address_family_names =
    (0, "AF_UNSPEC")
    ∷ (1, "AF_UNIX")
    ∷ (2, "AF_INET")
    ∷ (10, "AF_INET6")
    ∷ (16, "AF_NETLINK")
    ∷ (17, "AF_PACKET")
    ∷ []

unfoldable pub address_family_name : ℕ → String
unfolding concat format_uint
address_family_name f = elim (lookup f address_family_names) [
  | some name ↦ name
  | none ↦ concat ("AF_UNKNOWN(" ∷ format_uint f ∷ ")" ∷ [])
]

abbrev sock_nonblock : ℕ
sock_nonblock = 0o4000

abbrev sock_cloexec : ℕ
sock_cloexec = 0o2000000

unfoldable pub format_socket_type : ℤ → String
unfolding join concat format_int
format_socket_type t =
    let w = unsigned64 t in
    let base = and_not w (bit_or sock_nonblock sock_cloexec) in
    let name =
      if base == 1
      then "SOCK_STREAM"
      else if base == 2
      then "SOCK_DGRAM"
      else if base == 3
      then "SOCK_RAW"
      else if base == 5
      then "SOCK_SEQPACKET"
      else concat ("SOCK_UNKNOWN(" ∷ format_int (signed64 base) ∷ ")" ∷ []) in
    join "|" (
      name ∷ (flag_part w sock_nonblock "SOCK_NONBLOCK" ++ flag_part w sock_cloexec "SOCK_CLOEXEC"))

-- The empty text means that the descriptor is no standard stream.
unfoldable pub std_fd_name : ℤ → String
std_fd_name fd =
    if fd == pos 0
    then "stdin"
    else if fd == pos 1
    then "stdout"
    else if fd == pos 2
    then "stderr"
    else ""

unfoldable pub format_std_fd : ℤ → String
unfolding std_fd_name concat format_int
format_std_fd fd =
    if std_fd_name fd == ""
    then format_int fd
    else concat (format_int fd ∷ " (" ∷ std_fd_name fd ∷ ")" ∷ [])

unfoldable pub format_id : ℤ → String
unfolding format_int
format_id id = if id == negsuc 0 then "unchanged" else format_int id

unfoldable pub format_ipv4 : ℕ → String
unfolding concat format_uint
format_ipv4 addr = concat (
    format_uint (bit_and addr 0xff)
    ∷ "."
    ∷ format_uint (bit_and (addr / 2 ^ 8) 0xff)
    ∷ "."
    ∷ format_uint (bit_and (addr / 2 ^ 16) 0xff)
    ∷ "."
    ∷ format_uint (bit_and (addr / 2 ^ 24) 0xff)
    ∷ [])

-- v<<8 | v>>8 on a uint16.
unfoldable pub ntohs : ℕ → ℕ
ntohs v = bit_or (v * 2 ^ 8 % 2 ^ 16) (v / 2 ^ 8)

unfoldable pub errno_names : List (ℤ × String)
errno_names =
    (pos 1, "EPERM")
    ∷ (pos 2, "ENOENT")
    ∷ (pos 3, "ESRCH")
    ∷ (pos 4, "EINTR")
    ∷ (pos 5, "EIO")
    ∷ (pos 9, "EBADF")
    ∷ (pos 11, "EAGAIN")
    ∷ (pos 12, "ENOMEM")
    ∷ (pos 13, "EACCES")
    ∷ (pos 14, "EFAULT")
    ∷ (pos 16, "EBUSY")
    ∷ (pos 17, "EEXIST")
    ∷ (pos 20, "ENOTDIR")
    ∷ (pos 21, "EISDIR")
    ∷ (pos 22, "EINVAL")
    ∷ (pos 24, "EMFILE")
    ∷ (pos 28, "ENOSPC")
    ∷ (pos 32, "EPIPE")
    ∷ (pos 38, "ENOSYS")
    ∷ (pos 40, "ELOOP")
    ∷ (pos 97, "EAFNOSUPPORT")
    ∷ (pos 98, "EADDRINUSE")
    ∷ (pos 99, "EADDRNOTAVAIL")
    ∷ (pos 101, "ENETUNREACH")
    ∷ (pos 103, "ECONNABORTED")
    ∷ (pos 104, "ECONNRESET")
    ∷ (pos 110, "ETIMEDOUT")
    ∷ (pos 111, "ECONNREFUSED")
    ∷ (pos 113, "EHOSTUNREACH")
    ∷ (pos 114, "EALREADY")
    ∷ (pos 115, "EINPROGRESS")
    ∷ []

unfoldable pub errno_name : ℤ → String
unfolding concat format_int
errno_name errno = elim (lookup errno errno_names) [
  | some name ↦ name
  | none ↦ concat ("errno " ∷ format_int errno ∷ [])
]
