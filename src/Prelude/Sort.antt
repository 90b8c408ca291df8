-- ===== src/Prelude/Sort.antt =====
-- `slices.Sort` over an ordered key type, and what sorting determines.
use Prim.Native.Nat.{suc}
use mathlib.Core.Path.{◌≡◌, refl, ap₂, ◌∙◌, sym}
use mathlib.Core.Logic.{inl, inr}
use mathlib.Core.Bool.{true, false}
use mathlib.Core.List.{List, [], ◌∷◌}
use native.Mathlib.Omega.{arith}
use ingest.Prelude.Tests.{if◌then◌else◌, Bool-cases}
use ingest.Prelude.Lists.{length, All}
use ingest.Prelude.Keys.{Key, ◌==◌, ◌⊑◌, elem, Distinct, Key-refl, Key-sound, le_refl}

module _ {ℓ} {K : Type ℓ} ⦃k : Key K⦄ where
  unfoldable pub sort_insert : K → List K → List K
  sort_insert a [] = a ∷ []
  sort_insert a (x ∷ xs) = if a ⊑ x then a ∷ x ∷ xs else x ∷ sort_insert a xs

  -- `slices.Sort`: the sorted rearrangement, here by insertion.
  unfoldable pub sort : List K → List K
  unfolding sort_insert
  sort [] = []
  sort (x ∷ xs) = sort_insert x (sort xs)

  pub elem-sort_insert :
      (a x : K) (xs : List K) → elem a (sort_insert x xs) ≡ (if x == a then true else elem a xs)
  unfolding sort_insert
  elem-sort_insert a x [] = refl
  elem-sort_insert a x (y ∷ ys) = ground (arith, elem-sort_insert a x ys)

  pub elem-sort : (a : K) (xs : List K) → elem a (sort xs) ≡ elem a xs
  unfolding sort
  elem-sort a [] = refl
  elem-sort a (x ∷ xs) = ground (arith, elem-sort_insert a x (sort xs), elem-sort a xs)

  length-sort_insert : (x : K) (xs : List K) → length (sort_insert x xs) ≡ suc (length xs)
  unfolding sort_insert
  length-sort_insert x [] = refl
  length-sort_insert x (y ∷ ys) = ground (arith, length-sort_insert x ys)

  pub length-sort : (xs : List K) → length (sort xs) ≡ length xs
  unfolding sort
  length-sort [] = refl
  length-sort (x ∷ xs) = ground (arith, length-sort_insert x (sort xs), length-sort xs)

  abbrev pub Below : K → List K → Type 0
  Below a = All (λ x. (a ⊑ x) ≡ true)

  abbrev pub IsSorted : List K → Type 0
  IsSorted [] = Unit
  IsSorted (x ∷ xs) = Below x xs × IsSorted xs

  Below-trans : (a b : K) (xs : List K) → (a ⊑ b) ≡ true → Below b xs → Below a xs
  Below-trans a b [] h s = tt
  Below-trans a b (x ∷ xs) h s = (k.le_trans a b x h s.0, Below-trans a b xs h s.1)

  Below-sort_insert :
      (a x : K) (xs : List K) → (a ⊑ x) ≡ true → Below a xs → Below a (sort_insert x xs)
  unfolding sort_insert
  Below-sort_insert a x [] h s = (h, tt)
  Below-sort_insert a x (y ∷ ys) h s = elim (Bool-cases (x ⊑ y)) [
    | inl e ↦ rw e (h, s)
    | inr e ↦ rw e (s.0, Below-sort_insert a x ys h s.1)
  ]

  sort_insert-IsSorted : (x : K) (xs : List K) → IsSorted xs → IsSorted (sort_insert x xs)
  unfolding sort_insert
  sort_insert-IsSorted x [] s = (tt, tt)
  sort_insert-IsSorted x (y ∷ ys) s = elim (Bool-cases (x ⊑ y)) [
    | inl e ↦ rw e ((e, Below-trans x y ys e s.0), s)
    | inr e ↦ rw e (Below-sort_insert y x ys (k.le_total x y e) s.0, sort_insert-IsSorted x ys s.1)
  ]

  pub sort-IsSorted : (xs : List K) → IsSorted (sort xs)
  unfolding sort
  sort-IsSorted [] = tt
  sort-IsSorted (x ∷ xs) = sort_insert-IsSorted x (sort xs) (sort-IsSorted xs)

  pub Below-elem : (a b : K) (xs : List K) → Below a xs → elem b xs ≡ true → (a ⊑ b) ≡ true
  Below-elem a b [] s h = cc
  Below-elem a b (x ∷ xs) s h = elim (Bool-cases (x == b)) [
    | inl e ↦ rw (← Key-sound x b e) s.0
    | inr e ↦ Below-elem a b xs s.1 (ground arith)
  ]

  Distinct-sort_insert :
      (x : K) (xs : List K) → elem x xs ≡ false → Distinct xs → Distinct (sort_insert x xs)
  unfolding sort_insert
  Distinct-sort_insert x [] h d = (refl, tt)
  Distinct-sort_insert x (y ∷ ys) h d = elim (Bool-cases (x ⊑ y)) [
    | inl e ↦ rw e (h, d)
    | inr e ↦ rw e (
      ground (arith, elem-sort_insert y x ys, k.beq_iff x y, k.beq_iff y x, d.0),
      Distinct-sort_insert x ys (ground arith) d.1,
    )
  ]

  pub Distinct-sort : (xs : List K) → Distinct xs → Distinct (sort xs)
  unfolding sort
  Distinct-sort [] d = tt
  Distinct-sort (x ∷ xs) d =
      Distinct-sort_insert x (sort xs) (elem-sort x xs ∙ d.0) (Distinct-sort xs d.1)

  -- An element that the tail of a sorted list without repetition holds is not its head.
  head_of_same :
      (x y : K) (xs ys : List K)
      → Below x xs
      → Below y ys
      → elem x (y ∷ ys) ≡ true
      → elem y (x ∷ xs) ≡ true
      → x ≡ y
  head_of_same x y xs ys bx by hx hy =
      k.le_antisymm x y (Below-elem x y (x ∷ xs) (le_refl x, bx) hy)
        (Below-elem y x (y ∷ ys) (le_refl y, by) hx)

  elem-tail :
      (a x : K) (xs ys : List K)
      → elem x xs ≡ false
      → elem x ys ≡ false
      → elem a (x ∷ xs) ≡ elem a (x ∷ ys)
      → elem a xs ≡ elem a ys
  elem-tail a x xs ys hx hy e = elim (Bool-cases (x == a)) [
    | inl p ↦ let q = Key-sound x a p in rw (← q) (hx ∙ sym hy)
    | inr p ↦ rw p at e
  ]

  -- A sorted list without repetition is determined by its elements.
  pub sorted_unique :
      (xs ys : List K)
      → IsSorted xs
      → IsSorted ys
      → Distinct xs
      → Distinct ys
      → ((a : K) → elem a xs ≡ elem a ys)
      → xs ≡ ys
  sorted_unique [] [] sx sy dx dy h = refl
  sorted_unique [] (y ∷ ys) sx sy dx dy h = cc (h y, Key-refl y)
  sorted_unique (x ∷ xs) [] sx sy dx dy h = cc (h x, Key-refl x)
  sorted_unique (x ∷ xs) (y ∷ ys) sx sy dx dy h =
      let e : x ≡ y =
        head_of_same x y xs ys sx.0 sy.0 (ground (arith, h x, Key-refl x))
          (ground (arith, h y, Key-refl y)) in
      ap₂ ◌∷◌ e (
        sorted_unique xs ys sx.1 sy.1 dx.1 dy.1
          (λ a. elem-tail a x xs ys dx.0 (rw e dy.0) (rw (← e) at (h a))))
