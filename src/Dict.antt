-- ===== src/Dict.antt =====
-- Go maps as association lists with distinct keys. An iteration over a map that deletes by a test
-- on the entry does not depend on the order, and is `retain`.
pub mod Laws
use krnl_sentry.Base.{Bool, true, List, [], ◌∷◌, Option, none, some, Eq, ◌==◌, ◌≡◌, if◌then◌else◌}

module _ {ℓ κ} {K : Type ℓ} {V : Type κ} ⦃e : Eq K⦄ where
  -- v, ok := m[k]
  unfoldable pub lookup : K → List (K × V) → Option V
  lookup wanted [] = none
  lookup wanted ((key, value) ∷ rest) = if key == wanted then some value else lookup wanted rest

  -- m[k] = v
  unfoldable pub insert : K → V → List (K × V) → List (K × V)
  insert key new [] = (key, new) ∷ []
  insert key new ((first, old) ∷ rest) =
      if first == key then (first, new) ∷ rest else (first, old) ∷ insert key new rest

  -- delete(m, k)
  unfoldable pub delete : K → List (K × V) → List (K × V)
  delete k [] = []
  delete k ((j, w) ∷ m) = if j == k then m else (j, w) ∷ delete k m

  -- A key occurs once.
  abbrev pub IsMap : List (K × V) → Type κ
  IsMap [] = Unit
  IsMap ((j, w) ∷ m) = (lookup j m ≡ none) × IsMap m

module _ {ℓ κ} {K : Type ℓ} {V : Type κ} where
  -- for k, v := range m { if !keep(k, v) { delete(m, k) } }
  unfoldable pub retain : (K → V → Bool) → List (K × V) → List (K × V)
  retain keep [] = []
  retain keep ((j, w) ∷ m) = if keep j w then (j, w) ∷ retain keep m else retain keep m
