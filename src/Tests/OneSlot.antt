-- ===== src/Tests/OneSlot.antt =====
-- The smallest cache that keeps the laws of `Lru`: one entry, replaced by each `add`.
use ingest.Prelude.{
  Key, Key-refl, Option, arith, if◌then◌else◌, nat_key, none, refl, some, text_key, ◌==◌, ◌≡◌, ◌≢◌,
  ◌⊎◌,
}
use ingest.LruCache.{Lru}

abbrev Slot : Type 0 → Type 0 → Type 0
Slot K V = Option (K × V)

module _ {K V : Type 0} ⦃k : Key K⦄ where
  unfoldable pub slot_peek : K → Option (K × V) → Option V
  slot_peek a none = none
  slot_peek a (some (j, v)) = if j == a then some v else none

  unfoldable pub slot_remove : K → Option (K × V) → Option (K × V)
  slot_remove a none = none
  slot_remove a (some (j, v)) = if j == a then none else some (j, v)

  pub slot_remove_self : (a : K) (c : Option (K × V)) → slot_peek a (slot_remove a c) ≡ none
  unfolding slot_peek slot_remove
  slot_remove_self a none = refl
  slot_remove_self a (some (j, v)) = ground arith

  pub slot_remove_other :
      (a j : K) (c : Option (K × V)) → j ≢ a → slot_peek j (slot_remove a c) ≡ slot_peek j c
  unfolding slot_peek slot_remove
  slot_remove_other a j none d = refl
  slot_remove_other a j (some (i, v)) d = ground (arith, k.beq_iff i a, k.beq_iff i j)

  pub slot_add_self : (a : K) (v : V) (c : Option (K × V)) → slot_peek a (some (a, v)) ≡ some v
  unfolding slot_peek
  slot_add_self a v c = rw (Key-refl a)

  pub slot_add_other :
      (a j : K) (v : V) (c : Option (K × V))
      → j ≢ a
      → (slot_peek j (some (a, v)) ≡ none) ⊎ (slot_peek j (some (a, v)) ≡ slot_peek j c)
  unfolding slot_peek
  slot_add_other a j v c d = ground (arith, k.beq_iff a j)

  abbrev pub one_slot : Lru K V (Option (K × V))
  one_slot = record {
    get = λ a c. (c, slot_peek a c);
    add = λ a v c. some (a, v);
    remove = slot_remove;
    peek = slot_peek;
    get_value = λ a c. refl;
    get_keeps = λ a j c. refl;
    add_self = slot_add_self;
    add_other = slot_add_other;
    remove_self = slot_remove_self;
    remove_other = slot_remove_other;
  }
