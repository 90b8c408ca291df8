-- ===== src/GoMap.antt =====
-- Go's built-in map, as the sources use it: an association list in which a key stands once. The
-- order of the entries stands for the order in which a `range` loop happens to visit them.
pub mod Laws
pub mod Order
use ingest.Prelude.{
  ℕ, Bool, true, false, Option, none, some, List, [], ◌∷◌, map, if◌then◌else◌, Key, ◌==◌, length,
  Distinct, GoString, ◌≡◌, text_key, sort,
}

abbrev pub GoMap {ℓ κ} : Type ℓ → Type κ → Type (ℓ ⊔ κ)
GoMap K V = List (K × V)

module _ {ℓ κ} {K : Type ℓ} {V : Type κ} where
  -- the keys, in the order of iteration: `maps.Keys(m)`
  abbrev pub keys : GoMap K V → List K
  keys [] = []
  keys ((j, _) ∷ m) = j ∷ keys m

  -- `len(m)`
  abbrev pub size : GoMap K V → ℕ
  size m = length (keys m)

module _ {ℓ κ} {K : Type ℓ} {V : Type κ} ⦃k : Key K⦄ where
  -- `v, ok := m[a]`
  unfoldable pub lookup : K → GoMap K V → Option V
  lookup a [] = none
  lookup a ((j, v) ∷ m) = if j == a then some v else lookup a m

  -- `m[a] = v`
  unfoldable pub insert : K → V → GoMap K V → GoMap K V
  insert a v [] = (a, v) ∷ []
  insert a v ((j, w) ∷ m) = if j == a then (j, v) ∷ m else (j, w) ∷ insert a v m

  -- `delete(m, a)`
  unfoldable pub delete : K → GoMap K V → GoMap K V
  delete a [] = []
  delete a ((j, w) ∷ m) = if j == a then m else (j, w) ∷ delete a m

  -- A Go map holds a key once.
  abbrev pub IsMap : GoMap K V → Type 0
  IsMap m = Distinct (keys m)

  -- `slices.Sorted(maps.Keys(m))`
  unfoldable pub sorted_keys : GoMap K V → List K
  sorted_keys m = sort (keys m)

  -- Two maps with the same entries, whatever the order of iteration.
  abbrev pub SameMap : GoMap K V → GoMap K V → Type (ℓ ⊔ κ)
  SameMap m n = (a : K) → lookup a m ≡ lookup a n

-- `m[a]` on a `map[string]string`: the zero value is the empty string.
unfoldable pub at : GoString → GoMap GoString GoString → GoString
at a m = elim (lookup a m) [ none ↦ [] | some v ↦ v ]
