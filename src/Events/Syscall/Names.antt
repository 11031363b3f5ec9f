-- ===== src/Events/Syscall/Names.antt =====
-- Names and numbers of syscalls determine each other, and the buffer of itoa is large enough.
use krnl_sentry.Base.{
  ℕ, zero, suc, ◌<◌, ◌≢◌, ◌^◌, String, List, [], ◌∷◌, none, some, ◌≡◌, ◌↔◌, refl, arith, Bool-cases,
  inl, inr, ◌/◌, ◌%◌, ◌==◌, nat_eq, string_eq, concat, digit_text, eq_iff,
}
use native.Mathlib.Nat.{pow-suc}
use krnl_sentry.Dict.{lookup}
use krnl_sentry.Events.Syscall.{
  Syscall, sys_unknown, syscall_names, itoa_loop, itoa, to_string, parse_from, parse_syscall,
}

-- With room for the digits the loop does not run off the buffer.
itoa_loop_total :
    (i v : ℕ) (buf : String) → v < 10 ^ i → (s : String) × (itoa_loop i v buf ≡ some s)
unfolding itoa_loop
itoa_loop_total zero v buf h = (buf, ground arith)
itoa_loop_total (suc i) v buf h =
    let (s, e) =
      itoa_loop_total i (v / 10) (concat (digit_text (v % 10) ∷ buf ∷ []))
        (omega (arith, pow-suc 10 i)) in
    elim (Bool-cases (v == 0)) [ inl z ↦ (buf, rw z refl) | inr z ↦ (s, rw z e) ]

-- For every uint64 the 20 bytes of the buffer are enough: itoa does not panic.
pub itoa_total : (v : ℕ) → v < 2 ^ 64 → (s : String) × (itoa v ≡ some s)
unfolding itoa
itoa_total v h = elim (Bool-cases (v == 0)) [
  | inl z ↦ ("0", rw z refl)
  | inr z ↦ let (s, e) = itoa_loop_total 20 v "" (omega arith) in (s, rw z e)
]

-- A name is found at one number only, if numbers and names stand once in the table.
abbrev IsNaming : List (Syscall × String) → Type 0
IsNaming [] = Unit
IsNaming ((j, n) ∷ rest) = (parse_from n rest ≡ none) × (lookup j rest ≡ none) × IsNaming rest

syscall_names-IsNaming : IsNaming syscall_names
unfolding syscall_names parse_from lookup
syscall_names-IsNaming = ground arith

lookup-parse_from :
    (name : String) (sc : Syscall) (table : List (Syscall × String))
    → IsNaming table
    → parse_from name table ≡ some sc
    → (lookup sc table ≡ some name) × (sc ≢ sys_unknown)
unfolding parse_from lookup
lookup-parse_from name sc [] d h = ground arith
lookup-parse_from name sc ((j, n) ∷ rest) d h =
    ground (arith, eq_iff n name, lookup-parse_from name sc rest d.2)

parse_from-lookup :
    (name : String) (sc : Syscall) (table : List (Syscall × String))
    → IsNaming table
    → sc ≢ sys_unknown
    → lookup sc table ≡ some name
    → parse_from name table ≡ some sc
unfolding parse_from lookup
parse_from-lookup name sc [] d ne h = ground arith
parse_from-lookup name sc ((j, n) ∷ rest) d ne h =
    ground (arith, eq_iff n name, parse_from-lookup name sc rest d.2 ne)

-- ParseSyscall finds a number exactly when it is a known one, not 0, with that name.
pub parse_syscall_iff :
    (name : String) (sc : Syscall)
    → (parse_syscall name ≡ some sc) ↔ ((lookup sc syscall_names ≡ some name) × (sc ≢ sys_unknown))
unfolding parse_syscall
parse_syscall_iff name sc = (
  lookup-parse_from name sc syscall_names syscall_names-IsNaming,
  λ h. parse_from-lookup name sc syscall_names syscall_names-IsNaming h.1 h.0,
)

-- String undoes ParseSyscall.
pub to_string-parse_syscall :
    (name : String) (sc : Syscall) → parse_syscall name ≡ some sc → to_string sc ≡ name
unfolding to_string
to_string-parse_syscall name sc h = rw (((parse_syscall_iff name sc).0 h).0, to_string) refl
