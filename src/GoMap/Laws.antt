-- ===== src/GoMap/Laws.antt =====
-- What each map operation does to the entries, the keys and the size.
use ingest.Prelude.{
  ◌+◌, ◌≤◌, true, false, none, some, [], ◌∷◌, if◌then◌else◌, Key, ◌==◌, elem, ◌≡◌, refl, arith,
  Bool-cases, inl, inr, Key-refl, GoString, text_key,
}
use ingest.GoMap.{GoMap, keys, size, lookup, insert, delete, IsMap, at}

module _ {ℓ κ} {K : Type ℓ} {V : Type κ} ⦃k : Key K⦄ where
  pub lookup-insert :
      (a j : K) (v : V) (m : GoMap K V)
      → lookup j (insert a v m) ≡ (if a == j then some v else lookup j m)
  unfolding lookup insert
  lookup-insert a j v [] = refl
  lookup-insert a j v ((i, w) ∷ m) =
      ground (arith, k.beq_iff a j, k.beq_iff i a, k.beq_iff i j, lookup-insert a j v m)

  pub lookup-insert_self : (a : K) (v : V) (m : GoMap K V) → lookup a (insert a v m) ≡ some v
  lookup-insert_self a v m = rw (lookup-insert, Key-refl a)

  pub elem-keys-insert :
      (a j : K) (v : V) (m : GoMap K V)
      → elem j (keys (insert a v m)) ≡ (if a == j then true else elem j (keys m))
  unfolding insert
  elem-keys-insert a j v [] = refl
  elem-keys-insert a j v ((i, w) ∷ m) =
      ground (arith, k.beq_iff a j, k.beq_iff i a, k.beq_iff i j, elem-keys-insert a j v m)

  pub insert-IsMap : (a : K) (v : V) (m : GoMap K V) → IsMap m → IsMap (insert a v m)
  unfolding insert
  insert-IsMap a v [] d = (refl, tt)
  insert-IsMap a v ((i, w) ∷ m) d = elim (Bool-cases (i == a)) [
    | inl e ↦ rw e d
    | inr e ↦ rw e (
      ground (arith, elem-keys-insert a i v m, d.0, k.beq_iff a i, k.beq_iff i a),
      insert-IsMap a v m d.1,
    )
  ]

  elem-keys-delete_le :
      (a j : K) (m : GoMap K V) → elem j (keys m) ≡ false → elem j (keys (delete a m)) ≡ false
  unfolding delete
  elem-keys-delete_le a j [] h = refl
  elem-keys-delete_le a j ((i, w) ∷ m) h = ground (arith, elem-keys-delete_le a j m)

  pub delete-IsMap : (a : K) (m : GoMap K V) → IsMap m → IsMap (delete a m)
  unfolding delete
  delete-IsMap a [] d = tt
  delete-IsMap a ((i, w) ∷ m) d = elim (Bool-cases (i == a)) [
    | inl e ↦ rw e d.1
    | inr e ↦ rw e (elem-keys-delete_le a i m d.0, delete-IsMap a m d.1)
  ]

  pub lookup_absent : (a : K) (m : GoMap K V) → elem a (keys m) ≡ false → lookup a m ≡ none
  unfolding lookup
  lookup_absent a [] h = refl
  lookup_absent a ((i, w) ∷ m) h = ground (arith, lookup_absent a m)

  pub lookup_present :
      (a : K) (m : GoMap K V) → elem a (keys m) ≡ true → (v : V) × (lookup a m ≡ some v)
  unfolding lookup
  lookup_present a [] h = cc
  lookup_present a ((i, w) ∷ m) h = elim (Bool-cases (i == a)) [
    | inl e ↦ (w, rw e)
    | inr e ↦ rw e (lookup_present a m (ground arith))
  ]

  pub elem-keys_of_some :
      (a : K) (m : GoMap K V) {v : V} → lookup a m ≡ some v → elem a (keys m) ≡ true
  elem-keys_of_some a m h = elim (Bool-cases (elem a (keys m))) [
    | inl e ↦ e
    | inr e ↦ cc (lookup_absent a m e)
  ]

  pub lookup-delete :
      (a j : K) (m : GoMap K V)
      → IsMap m
      → lookup j (delete a m) ≡ (if a == j then none else lookup j m)
  unfolding lookup delete
  lookup-delete a j [] d = ground arith
  lookup-delete a j ((i, w) ∷ m) d = ground (
    arith,
    k.beq_iff a j,
    k.beq_iff i a,
    k.beq_iff i j,
    lookup-delete a j m d.1,
    lookup_absent a m,
  )

  pub size-insert-le : (a : K) (v : V) (m : GoMap K V) → size (insert a v m) ≤ size m + 1
  unfolding insert
  size-insert-le a v [] = omega arith
  size-insert-le a v ((i, w) ∷ m) = ground (arith, size-insert-le a v m)

  pub size-delete :
      (a : K) (m : GoMap K V) → elem a (keys m) ≡ true → size (delete a m) + 1 ≡ size m
  unfolding delete
  size-delete a [] h = cc
  size-delete a ((i, w) ∷ m) h = ground (arith, size-delete a m)

-- Reading with the zero value.
pub at_of_eq :
    (a : GoString) (m n : GoMap GoString GoString) → lookup a m ≡ lookup a n → at a m ≡ at a n
unfolding at
at_of_eq a m n h = ground (arith, h)

pub at_of_some :
    (a : GoString) (m : GoMap GoString GoString) {v : GoString} → lookup a m ≡ some v → at a m ≡ v
unfolding at
at_of_some a m h = ground (arith, h)

pub at_of_none : (a : GoString) (m : GoMap GoString GoString) → lookup a m ≡ none → at a m ≡ []
unfolding at
at_of_none a m h = ground (arith, h)
