-- ===== src/Events/Syscall.antt =====
-- events/syscall.go: the syscall numbers and their names.
pub mod Names
use krnl_sentry.Base.{
  ℕ, zero, suc, ◌/◌, ◌%◌, String, Bool, true, ◌&&◌, ◌||◌, not, List, [], ◌∷◌, Option, none, some,
  ◌==◌, string_eq, nat_eq, if◌then◌else◌, concat, digit_text, get_or_else,
}
use krnl_sentry.Dict.{lookup}

-- A Syscall is a uint32, which need not be one of the constants.
abbrev pub Syscall : Type 0
Syscall = ℕ

abbrev pub sys_unknown : Syscall
sys_unknown = 0

abbrev pub sys_execve : Syscall
sys_execve = 1

abbrev pub sys_execveat : Syscall
sys_execveat = 2

abbrev pub sys_openat : Syscall
sys_openat = 3

abbrev pub sys_setuid : Syscall
sys_setuid = 4

abbrev pub sys_setgid : Syscall
sys_setgid = 5

abbrev pub sys_setresuid : Syscall
sys_setresuid = 6

abbrev pub sys_setresgid : Syscall
sys_setresgid = 7

abbrev pub sys_ptrace : Syscall
sys_ptrace = 8

abbrev pub sys_socket : Syscall
sys_socket = 9

abbrev pub sys_connect : Syscall
sys_connect = 10

abbrev pub sys_dup2 : Syscall
sys_dup2 = 11

abbrev pub sys_dup3 : Syscall
sys_dup3 = 12

abbrev pub sys_capset : Syscall
sys_capset = 13

unfoldable pub syscall_names : List (Syscall × String)
syscall_names =
    (sys_unknown, "unknown")
    ∷ (sys_execve, "execve")
    ∷ (sys_execveat, "execveat")
    ∷ (sys_openat, "openat")
    ∷ (sys_setuid, "setuid")
    ∷ (sys_setgid, "setgid")
    ∷ (sys_setresuid, "setresuid")
    ∷ (sys_setresgid, "setresgid")
    ∷ (sys_ptrace, "ptrace")
    ∷ (sys_socket, "socket")
    ∷ (sys_connect, "connect")
    ∷ (sys_dup2, "dup2")
    ∷ (sys_dup3, "dup3")
    ∷ (sys_capset, "capset")
    ∷ []

-- The loop of itoa: `i` bytes of the buffer are free in front of the digits written. `none` is
-- the panic of a write in front of the buffer.
unfoldable pub itoa_loop : ℕ → ℕ → String → Option String
itoa_loop zero v buf = if v == 0 then some buf else none
itoa_loop (suc i) v buf =
    let rest = itoa_loop i (v / 10) (concat (digit_text (v % 10) ∷ buf ∷ [])) in
    if v == 0 then some buf else rest

-- The buffer has 20 bytes.
unfoldable pub itoa : ℕ → Option String
itoa v = if v == 0 then some "0" else itoa_loop 20 v ""

-- Syscall.String. The text "" stands for a panic in itoa, which does not happen.
unfoldable pub to_string : Syscall → String
to_string s = elim (lookup s syscall_names) [
  | some name ↦ name
  | none ↦ concat ("unknown(" ∷ get_or_else (itoa s) "" ∷ ")" ∷ [])
]

-- The loop of ParseSyscall over the names. No name stands twice, so the order does not matter.
unfoldable pub parse_from : String → List (Syscall × String) → Option Syscall
parse_from name [] = none
parse_from name ((sc, n) ∷ rest) =
    if n == name && not (sc == sys_unknown) then some sc else parse_from name rest

unfoldable pub parse_syscall : String → Option Syscall
parse_syscall name = parse_from name syscall_names

abbrev pub is_execution : Syscall → Bool
is_execution s = s == sys_execve || s == sys_execveat

abbrev pub is_credential_change : Syscall → Bool
is_credential_change s =
    s == sys_setuid || s == sys_setgid || s == sys_setresuid || s == sys_setresgid

abbrev pub is_dup : Syscall → Bool
is_dup s = s == sys_dup2 || s == sys_dup3
