-- ===== src/Loader/Collector/Detach.antt =====
-- What Close leaves of the probes.
use krnl_sentry.Base.{
  String, Bool, true, false, List, [], ◌∷◌, ◌++◌, some, if◌then◌else◌, ◌==◌, nat_eq, string_eq, ◌≡◌,
  ◌⊎◌, inl, inr, refl, ap, subst, ◌∙◌, arith, All, All-mono, eq_iff, Bool-cases, Option-cases,
}
use mathlib.Core.List.{reverse, reverse-append}
use krnl_sentry.Loader.Collector.{Kernel, without, detach_all}

-- A probe that could not be detached.
abbrev pub IsStranded : Kernel → String → Type 0
IsStranded k name = (e : String) × (k.detach name ≡ some e)

abbrev pub is_in : String → List String → Bool
is_in n [] = false
is_in n (m ∷ names) = if m == n then true else is_in n names

is_in-append :
    (n : String) (front back : List String)
    → is_in n (front ++ back) ≡ (if is_in n front then true else is_in n back)
is_in-append n [] back = refl
is_in-append n (m ∷ front) back = ground (arith, is_in-append n front back)

pub is_in-reverse : (n : String) (names : List String) → is_in n (reverse names) ≡ is_in n names
is_in-reverse n [] = refl
is_in-reverse n (m ∷ names) =
    ap (is_in n) (reverse-append (m ∷ []) names)
    ∙ is_in-append n (reverse names) (m ∷ [])
    ∙ ground (arith, is_in-reverse n names)

-- A probe that could not be detached, or that is still to be detached.
abbrev pub Pending : Kernel → List String → String → Type 0
Pending k names n = IsStranded k n ⊎ (is_in n names ≡ true)

Pending-after :
    (k : Kernel) (name : String) (names held : List String)
    → All (Pending k (name ∷ names)) held
    → All (Pending k names) (without name held)
unfolding without
Pending-after k name names [] h = tt
Pending-after k name names (n ∷ held) h = elim (Bool-cases (n == name)) [
  | inl same ↦ rw same (Pending-after k name names held h.1)
  | inr other ↦ rw other (
    elim h.0 [
      | inl stranded ↦ inl stranded
      | inr later ↦ inr (ground (arith, later, other, eq_iff name n, eq_iff n name))
    ],
    Pending-after k name names held h.1,
  )
]

Pending-failed :
    (k : Kernel) (name e : String) (names held : List String)
    → k.detach name ≡ some e
    → All (Pending k (name ∷ names)) held
    → All (Pending k names) held
Pending-failed k name e names [] failure h = tt
Pending-failed k name e names (n ∷ held) failure h = (
  elim h.0 [
    | inl stranded ↦ inl stranded
    | inr later ↦ elim (Bool-cases (name == n)) [
      | inl same ↦
          let here : name ≡ n = ground (arith, same, eq_iff name n) in
          inl (e, subst (λ m. k.detach m ≡ some e) here failure)
      | inr other ↦ inr (ground (arith, later, other))
    ]
  ],
  Pending-failed k name e names held failure h.1,
)

pub detach_all-IsStranded :
    (k : Kernel) (names held : List String)
    → All (Pending k names) held
    → All (IsStranded k) (detach_all k names held).0
unfolding detach_all
detach_all-IsStranded k [] held h =
    All-mono (Pending k []) (IsStranded k) held
      (λ n p. elim p [ inl stranded ↦ stranded | inr none_left ↦ absurd (ground arith) ]) h
detach_all-IsStranded k (name ∷ names) held h = elim (Option-cases (k.detach name)) [
  | inl gone ↦
      rw (gone, detach_all)
        (detach_all-IsStranded k names (without name held) (Pending-after k name names held h))
  | inr (e, stays) ↦
      rw (stays, detach_all)
        (detach_all-IsStranded k names held (Pending-failed k name e names held stays h))
]

pub All-is_in :
    (k : Kernel) (names part : List String)
    → ((n : String) → is_in n part ≡ true → is_in n names ≡ true)
    → All (Pending k names) part
All-is_in k names [] h = tt
All-is_in k names (n ∷ part) h = (
  inr (h n (ground (arith, eq_iff n n))),
  All-is_in k names part (λ m found. h m (ground (arith, found))),
)
