-- ===== src/Dict/Laws.antt =====
-- What a lookup finds after each operation of a map, and how the size changes.
use krnl_sentry.Base.{
  ◌+◌, ◌≤◌, Bool, List, [], ◌∷◌, Option, none, some, Eq, ◌==◌, ◌≡◌, refl, if◌then◌else◌, arith,
  length, All, Bool-cases, inl, inr, subst,
}
use krnl_sentry.Dict.{lookup, insert, delete, retain, IsMap}

-- An entry that the test refuses is gone.
abbrev pub guarded {κ} : {V : Type κ} → (V → Bool) → Option V → Option V
guarded keep none = none
guarded keep (some v) = if keep v then some v else none

module _ {ℓ κ} {K : Type ℓ} {V : Type κ} ⦃e : Eq K⦄ where
  pub lookup-insert :
      (written asked : K) (new : V) (m : List (K × V))
      → lookup asked (insert written new m)
        ≡ (if written == asked then some new else lookup asked m)
  unfolding lookup insert
  lookup-insert written asked new [] = refl
  lookup-insert written asked new ((key, old) ∷ rest) =
      let ih = lookup-insert written asked new rest in
      ground (arith, ih, e.beq_iff key written, e.beq_iff key asked, e.beq_iff written asked)

  pub lookup-delete :
      (k j : K) (m : List (K × V))
      → IsMap m
      → lookup j (delete k m) ≡ (if k == j then none else lookup j m)
  unfolding lookup delete
  lookup-delete k j [] h = ground arith
  lookup-delete k j ((i, w) ∷ m) h =
      ground (arith, e.beq_iff k j, e.beq_iff i k, e.beq_iff i j, lookup-delete k j m h.1)

  pub lookup-retain-none :
      (keep : K → V → Bool) (j : K) (m : List (K × V))
      → lookup j m ≡ none
      → lookup j (retain keep m) ≡ none
  unfolding lookup retain
  lookup-retain-none keep j [] h = refl
  lookup-retain-none keep j ((i, w) ∷ m) h = ground (arith, lookup-retain-none keep j m)

  pub lookup-retain :
      (keep : K → V → Bool) (j : K) (m : List (K × V))
      → IsMap m
      → lookup j (retain keep m) ≡ guarded (keep j) (lookup j m)
  unfolding lookup retain
  lookup-retain keep j [] h = refl
  lookup-retain keep j ((i, w) ∷ m) h =
      ground (arith, e.beq_iff i j, lookup-retain keep j m h.1, lookup-retain-none keep i m)

  pub insert-IsMap : (k : K) (v : V) (m : List (K × V)) → IsMap m → IsMap (insert k v m)
  unfolding lookup insert
  insert-IsMap k v [] h = (refl, tt)
  insert-IsMap k v ((i, w) ∷ m) h =
      ground (arith, e.beq_iff k i, e.beq_iff i k, insert-IsMap k v m h.1, lookup-insert k i v m)

  pub retain-IsMap : (keep : K → V → Bool) (m : List (K × V)) → IsMap m → IsMap (retain keep m)
  unfolding retain
  retain-IsMap keep [] h = tt
  retain-IsMap keep ((i, w) ∷ m) h =
      ground (arith, retain-IsMap keep m h.1, lookup-retain-none keep i m)

  pub delete-IsMap : (k : K) (m : List (K × V)) → IsMap m → IsMap (delete k m)
  unfolding delete
  delete-IsMap k [] h = tt
  delete-IsMap k ((i, w) ∷ m) h =
      ground (arith, e.beq_iff k i, delete-IsMap k m h.1, lookup-delete k i m h.1)

  -- A write to a known key keeps the size.
  pub length-insert : (k : K) (v : V) (m : List (K × V)) → length (insert k v m) ≤ length m + 1
  unfolding insert
  length-insert k v [] = omega arith
  length-insert k v ((i, w) ∷ m) = ground (arith, length-insert k v m)

  pub length-insert_old :
      (k : K) (v w : V) (m : List (K × V)) → lookup k m ≡ some w → length (insert k v m) ≡ length m
  unfolding insert lookup
  length-insert_old k v w [] h = ground arith
  length-insert_old k v w ((i, x) ∷ m) h = ground (arith, length-insert_old k v w m)

module _ {ℓ κ} {K : Type ℓ} {V : Type κ} where
  pub length-retain-le :
      (keep : K → V → Bool) (m : List (K × V)) → length (retain keep m) ≤ length m
  unfolding retain
  length-retain-le keep [] = omega arith
  length-retain-le keep ((i, w) ∷ m) = ground (arith, length-retain-le keep m)

-- A predicate on all values of a map.
module _ {ℓ κ μ} {K : Type ℓ} {V : Type κ} (P : V → Type μ) where
  abbrev pub Values : List (K × V) → Type μ
  Values = All (λ p. P p.1)

  pub Values-retain : (keep : K → V → Bool) (m : List (K × V)) → Values m → Values (retain keep m)
  unfolding retain
  Values-retain keep [] h = h
  Values-retain keep ((j, w) ∷ m) h = ground (arith, Values-retain keep m h.1)

module _ {ℓ κ μ} {K : Type ℓ} {V : Type κ} ⦃e : Eq K⦄ (P : V → Type μ) where
  pub Values-lookup : (k : K) (m : List (K × V)) {v : V} → Values P m → lookup k m ≡ some v → P v
  unfolding lookup
  Values-lookup k [] h f = cc
  Values-lookup k ((j, w) ∷ m) {v} h f = elim (Bool-cases (j == k)) [
    | inl here ↦ let same : w ≡ v = ground arith in subst P same h.0
    | inr there ↦ Values-lookup k m h.1 (ground arith)
  ]

  pub Values-insert :
      (k : K) (v : V) (m : List (K × V)) → P v → Values P m → Values P (insert k v m)
  unfolding insert
  Values-insert k v [] p h = (p, tt)
  Values-insert k v ((j, w) ∷ m) p h = elim (Bool-cases (j == k)) [
    | inl here ↦ rw here (p, h.1)
    | inr there ↦ rw there (h.0, Values-insert k v m p h.1)
  ]
