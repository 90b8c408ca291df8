-- ===== src/GoMap/Order.antt =====
-- What a program reads of a Go map through its sorted keys.
use ingest.Prelude.{
  Key, elem, ◌≡◌, ◌∙◌, sym, arith, sort, sort-IsSorted, sorted_unique, Distinct-sort, elem-sort,
}
use ingest.GoMap.{GoMap, keys, IsMap, SameMap, sorted_keys}
use ingest.GoMap.Laws.{lookup_absent, lookup_present}

module _ {ℓ κ} {K : Type ℓ} {V : Type κ} ⦃k : Key K⦄ where
  elem-keys-SameMap : (m n : GoMap K V) → SameMap m n → (a : K) → elem a (keys m) ≡ elem a (keys n)
  elem-keys-SameMap m n h a =
      ground
        (arith, h a, lookup_absent a m, lookup_absent a n, lookup_present a m, lookup_present a n)

  pub sorted_keys-SameMap :
      (m n : GoMap K V) → IsMap m → IsMap n → SameMap m n → sorted_keys m ≡ sorted_keys n
  unfolding sorted_keys
  sorted_keys-SameMap m n dm dn h =
      sorted_unique (sort (keys m)) (sort (keys n)) (sort-IsSorted (keys m))
        (sort-IsSorted (keys n)) (Distinct-sort (keys m) dm) (Distinct-sort (keys n) dn)
        λ a. elem-sort a (keys m) ∙ elem-keys-SameMap m n h a ∙ sym (elem-sort a (keys n))
