-- ===== src/Infra/Otlp/Cap.antt =====
-- What `CapStringMap` of internal/infra/otlp/typed_attrs.go deletes.
use ingest.Prelude.{
  ℕ, ◌+◌, ◌≤◌, ◌<◌, true, false, none, some, List, [], ◌∷◌, ◌++◌, leb, ◌||◌, if◌then◌else◌, length,
  take, drop, take-append-drop, length-drop, GoString, ◌≡◌, refl, sym, ap, ◌∙◌, arith, Bool-cases,
  inl, inr, text_key, Key, ◌==◌, ◌⊑◌, elem, elem-append, Distinct, IsSorted, Below-elem,
  sort-IsSorted, Distinct-sort, elem-sort, length-sort,
}
use ingest.GoMap.{keys, size, lookup, delete, IsMap, sorted_keys}
use ingest.GoMap.Laws.{lookup-delete, delete-IsMap, size-delete, lookup_absent, lookup_present}
use ingest.Infra.Otlp.{StringMap, delete_all, cap_string_map}

lookup-delete_all :
    (ks : List GoString) (m : StringMap) (j : GoString)
    → IsMap m
    → lookup j (delete_all ks m) ≡ (if elem j ks then none else lookup j m)
unfolding delete_all
lookup-delete_all [] m j d = refl
lookup-delete_all (k ∷ ks) m j d =
    ground (arith, lookup-delete_all ks (delete k m) j (delete-IsMap k m d), lookup-delete k j m d)

delete_all-IsMap : (ks : List GoString) (m : StringMap) → IsMap m → IsMap (delete_all ks m)
unfolding delete_all
delete_all-IsMap [] m d = d
delete_all-IsMap (k ∷ ks) m d = delete_all-IsMap ks (delete k m) (delete-IsMap k m d)

elem-keys_iff :
    (a : GoString) (m n : StringMap) → lookup a m ≡ lookup a n → elem a (keys m) ≡ elem a (keys n)
elem-keys_iff a m n h =
    ground (arith, lookup_absent a m, lookup_absent a n, lookup_present a m, lookup_present a n)

elem-keys-delete :
    (k a : GoString) (m : StringMap)
    → IsMap m
    → (k == a) ≡ false
    → elem a (keys (delete k m)) ≡ elem a (keys m)
elem-keys-delete k a m d h = elem-keys_iff a (delete k m) m (ground (arith, lookup-delete k a m d))

-- Every key of `ks` is a key of `m`.
Within : List GoString → StringMap → Type 0
Within ks m = (a : GoString) → elem a ks ≡ true → elem a (keys m) ≡ true

size-delete_all :
    (ks : List GoString) (m : StringMap)
    → IsMap m
    → Distinct ks
    → Within ks m
    → size (delete_all ks m) + length ks ≡ size m
unfolding delete_all Within
size-delete_all [] m d ds w = omega arith
size-delete_all (k ∷ ks) m d ds w =
    let here : elem k (keys m) ≡ true = w k (ground (arith, text_key.beq_iff k k)) in
    omega (
      arith,
      size-delete k m here,
      size-delete_all ks (delete k m) (delete-IsMap k m d) ds.1 (λ a h. elim (Bool-cases (k == a)) [
        | inl e ↦ cc (ds.0, h, (text_key.beq_iff k a).0 e)
        | inr e ↦ elem-keys-delete k a m d e ∙ w a (rw e h)
      ]),
    )

module _ {ℓ} {K : Type ℓ} ⦃k : Key K⦄ where
  -- The elements of the first part of a sorted list are at most those of the second.
  IsSorted-append_le :
      (a b : K) (xs ys : List K)
      → IsSorted (xs ++ ys)
      → elem a xs ≡ true
      → elem b ys ≡ true
      → (a ⊑ b) ≡ true
  IsSorted-append_le a b [] ys s h g = cc
  IsSorted-append_le a b (x ∷ xs) ys s h g = elim (Bool-cases (x == a)) [
    | inl e ↦
        let p = (k.beq_iff x a).0 e in
        rw (← p) (Below-elem x b (xs ++ ys) s.0 (ground (arith, elem-append b xs ys)))
    | inr e ↦ IsSorted-append_le a b xs ys s.1 (rw e at h) g
  ]

  Distinct-append_right : (xs ys : List K) → Distinct (xs ++ ys) → Distinct ys
  Distinct-append_right [] ys d = d
  Distinct-append_right (x ∷ xs) ys d = Distinct-append_right xs ys d.1

-- `m'` is `m` without its `dropped` lexically greatest keys.
pub record IsCapped (m : StringMap) (limit : ℕ) (m' : StringMap) (dropped : ℕ) : Type 0 where
  pub is_map : IsMap m'
  pub counted : size m' + dropped ≡ size m
  pub bounded : 0 < limit → size m' ≤ limit
  pub small : size m ≤ limit → m' ≡ m
  pub full : 0 < limit → limit ≤ size m → size m' ≡ limit
  pub kept : (a : GoString) (v : GoString) → lookup a m' ≡ some v → lookup a m ≡ some v
  pub smallest :
      (a b : GoString)
      → elem a (keys m') ≡ true
      → elem b (keys m) ≡ true
      → elem b (keys m') ≡ false
      → (a ⊑ b) ≡ true

module _ (m : StringMap) (limit : ℕ) (d : IsMap m) (over : limit ≤ size m) where
  abbrev ks : List GoString
  ks = sorted_keys m

  abbrev excess : List GoString
  excess = drop limit ks

  abbrev capped : StringMap
  capped = delete_all excess m

  elem-ks : (a : GoString) → elem a ks ≡ elem a (keys m)
  unfolding sorted_keys
  elem-ks a = elem-sort a (keys m)

  split : take limit ks ++ excess ≡ ks
  split = take-append-drop limit ks

  elem-split : (a : GoString) → (elem a (take limit ks) || elem a excess) ≡ elem a (keys m)
  elem-split a = sym (elem-append a (take limit ks) excess) ∙ ap (elem a) split ∙ elem-ks a

  elem-capped :
      (a : GoString) → elem a (keys capped) ≡ (if elem a excess then false else elem a (keys m))
  elem-capped a = ground (
    arith,
    lookup-delete_all excess m a d,
    lookup_absent a capped,
    lookup_present a capped,
    lookup_absent a m,
    lookup_present a m,
  )

  counted : size capped + length excess ≡ size m
  unfolding sorted_keys Within
  counted =
      size-delete_all excess m d
        (Distinct-append_right (take limit ks) excess (rw split (Distinct-sort (keys m) d)))
        (λ a h. ground (arith, elem-split a))

  length-excess : length excess + limit ≡ size m
  unfolding sorted_keys
  length-excess = omega (arith, length-drop limit ks, length-sort (keys m))

  capped_kept : (a v : GoString) → lookup a capped ≡ some v → lookup a m ≡ some v
  capped_kept a v h = ground (arith, lookup-delete_all excess m a d)

  capped_smallest :
      (a b : GoString)
      → elem a (keys capped) ≡ true
      → elem b (keys m) ≡ true
      → elem b (keys capped) ≡ false
      → (a ⊑ b) ≡ true
  unfolding sorted_keys
  capped_smallest a b ha hb nb =
      IsSorted-append_le a b (take limit ks) excess (rw split (sort-IsSorted (keys m)))
        (ground (arith, elem-capped a, elem-split a)) (ground (arith, elem-capped b))

-- `CapStringMap` with a positive limit leaves a map with at most `limit` keys, exactly `limit` if
-- there were as many; it reports how many it deleted, changes no value, deletes nothing from a map
-- within the limit, and every key that stays is at most every key that goes.
pub cap_string_map-IsCapped :
    (m : StringMap) (limit : ℕ)
    → IsMap m
    → IsCapped m limit (cap_string_map m limit).0 (cap_string_map m limit).1
unfolding cap_string_map
cap_string_map-IsCapped m limit d = elim (Bool-cases (leb limit 0 || leb (size m) limit)) [
  | inl e ↦ rw e (record {
    is_map = d;
    counted = omega arith;
    bounded = λ h. ground arith;
    small = λ h. refl;
    full = λ h g. ground arith;
    kept = λ a v h. h;
    smallest = λ a b h g n. cc;
  })
  | inr e ↦
      let over : limit ≤ size m = ground arith in
      rw e (record {
        is_map = delete_all-IsMap (excess m limit d over) m d;
        counted = counted m limit d over;
        bounded = λ h. omega (arith, counted m limit d over, length-excess m limit d over);
        small = λ h. absurd (ground arith);
        full = λ h g. omega (arith, counted m limit d over, length-excess m limit d over);
        kept = capped_kept m limit d over;
        smallest = capped_smallest m limit d over;
      })
]
