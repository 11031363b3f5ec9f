-- ===== src/Loader/Decode/Bytes.antt =====
-- Numbers and C strings as rows of bytes.
use krnl_sentry.Base.{
  ℕ, zero, suc, ◌*◌, ◌/◌, ◌%◌, ◌≤◌, ◌<◌, List, [], ◌∷◌, ◌++◌, ◌==◌, nat_eq, ◌≡◌, ◌≢◌, inl, inr,
  refl, ap, sym, subst, ◌∙◌, arith, length, drop, All, Bool-cases,
}
use krnl_sentry.Loader.Decode.{take, le_value, nul_index, go_string}

-- The n bytes of a number, the least significant first.
unfoldable pub le_bytes : ℕ → ℕ → List ℕ
le_bytes zero v = []
le_bytes (suc n) v = (v % 256) ∷ le_bytes n (v / 256)

-- The limit of a number of n bytes.
abbrev pub byte_limit : ℕ → ℕ
byte_limit zero = 1
byte_limit (suc n) = 256 * byte_limit n

pub length-le_bytes : (n v : ℕ) → length (le_bytes n v) ≡ n
unfolding le_bytes
length-le_bytes zero v = refl
length-le_bytes (suc n) v = ap suc (length-le_bytes n (v / 256))

pub le_value-le_bytes : (n v : ℕ) → v < byte_limit n → le_value (le_bytes n v) ≡ v
unfolding le_value le_bytes
le_value-le_bytes zero v h = omega arith
le_value-le_bytes (suc n) v h = omega (arith, le_value-le_bytes n (v / 256) (omega (arith, h)))

pub take-append : (front back : List ℕ) (n : ℕ) → length front ≡ n → take n (front ++ back) ≡ front
take-append [] back n h = subst (λ k. take k back ≡ []) h refl
take-append (x ∷ front) back zero h = absurd (omega (arith, h))
take-append (x ∷ front) back (suc n) h =
    ap (λ l. x ∷ l) (take-append front back n (omega (arith, h)))

pub drop-append : (front back : List ℕ) (n : ℕ) → length front ≡ n → drop n (front ++ back) ≡ back
drop-append [] back n h = subst (λ k. drop k back ≡ back) h refl
drop-append (x ∷ front) back zero h = absurd (omega (arith, h))
drop-append (x ∷ front) back (suc n) h = drop-append front back n (omega (arith, h))

-- No byte of a C string is NUL.
abbrev pub NoNul : List ℕ → Type 0
NoNul = All (λ x. x ≢ 0)

abbrev pub zeros : ℕ → List ℕ
zeros zero = []
zeros (suc n) = 0 ∷ zeros n

nul_index-zeros : (n : ℕ) → nul_index (zeros n) ≡ 0
unfolding nul_index
nul_index-zeros zero = refl
nul_index-zeros (suc n) = refl

nul_index-append : (s : List ℕ) (n : ℕ) → NoNul s → nul_index (s ++ zeros n) ≡ length s
unfolding nul_index
nul_index-append [] n h = nul_index-zeros n
nul_index-append (x ∷ s) n h = ground (arith, h.0, nul_index-append s n h.1)

go_string-take : (b : List ℕ) → go_string b ≡ take (nul_index b) b
unfolding go_string
go_string-take b = elim (Bool-cases (nul_index b == 0)) [
  | inl none_at_all ↦
      let e : nul_index b ≡ 0 = ground arith in rw none_at_all (sym (ap (λ n. take n b) e))
  | inr more ↦ rw more refl
]

-- A C string in a buffer that is filled up with NULs reads back as itself.
pub go_string-append : (s : List ℕ) (n : ℕ) → NoNul s → go_string (s ++ zeros n) ≡ s
go_string-append s n h =
    go_string-take (s ++ zeros n)
    ∙ ap (λ k. take k (s ++ zeros n)) (nul_index-append s n h)
    ∙ take-append s (zeros n) (length s) refl

-- What goString reads: it holds no NUL, and in the buffer the end or a NUL follows.
prefix_of : (b : List ℕ) → NoNul (take (nul_index b) b) × (length (take (nul_index b) b) ≤ length b)
unfolding nul_index
prefix_of [] = (tt, omega arith)
prefix_of (x ∷ b) = elim (Bool-cases (x == 0)) [
  | inl nul ↦ rw nul (tt, omega arith)
  | inr byte ↦
      let (clean, short) = prefix_of b in rw byte ((ground arith, clean), omega (arith, short))
]

pub go_string-NoNul : (b : List ℕ) → NoNul (go_string b) × (length (go_string b) ≤ length b)
go_string-NoNul b =
    subst (λ s. NoNul s × (length s ≤ length b)) (sym (go_string-take b)) (prefix_of b)
