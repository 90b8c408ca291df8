-- ===== src/Signals/Maps.antt =====
-- What the loops over maps of the mappers leave in them.
use ingest.Prelude.{
  Bool, Bool-cases, GoString, Option, [], ap, arith, elem, false, if◌then◌else◌, inl, inr, nat_key,
  none, refl, some, sym, text_key, ◌+◌, ◌==◌, ◌∙◌, ◌∷◌, ◌≡◌, ◌≤◌,
}
use ingest.GoMap.{GoMap, IsMap, insert, keys, lookup, size}
use ingest.GoMap.Laws.{insert-IsMap, lookup-insert, lookup_absent, size-insert-le}
use ingest.Infra.Otlp.{StringMap}
use ingest.Signals.{copy_keys, filter_keys}

-- the first of two answers
abbrev pub prefer {ℓ} : {V : Type ℓ} → Option V → Option V → Option V
prefer (some v) o = some v
prefer none o = o

pub lookup-filter_keys :
    {V : Type 0} (p : GoString → Bool) (a : GoString) (m : GoMap GoString V)
    → lookup a (filter_keys p m) ≡ (if p a then lookup a m else none)
unfolding filter_keys lookup
lookup-filter_keys p a [] = ground arith
lookup-filter_keys p a ((k, v) ∷ m) = elim (Bool-cases (k == a)) [
  | inl e ↦
      let same = (text_key.beq_iff k a).0 e in ground (arith, lookup-filter_keys p a m, ap p same)
  | inr e ↦ ground (arith, lookup-filter_keys p a m)
]

pub elem-filter_keys :
    {V : Type 0} (p : GoString → Bool) (a : GoString) (m : GoMap GoString V)
    → elem a (keys m) ≡ false
    → elem a (keys (filter_keys p m)) ≡ false
unfolding filter_keys
elem-filter_keys p a [] h = refl
elem-filter_keys p a ((k, v) ∷ m) h = ground (arith, elem-filter_keys p a m)

pub filter_keys-IsMap :
    {V : Type 0} (p : GoString → Bool) (m : GoMap GoString V) → IsMap m → IsMap (filter_keys p m)
unfolding filter_keys
filter_keys-IsMap p [] d = tt
filter_keys-IsMap p ((k, v) ∷ m) d = elim (Bool-cases (p k)) [
  | inl e ↦ rw e (elem-filter_keys p k m d.0, filter_keys-IsMap p m d.1)
  | inr e ↦ rw e (filter_keys-IsMap p m d.1)
]

pub size-filter_keys :
    {V : Type 0} (p : GoString → Bool) (m : GoMap GoString V) → size (filter_keys p m) ≤ size m
unfolding filter_keys
size-filter_keys p [] = omega arith
size-filter_keys p ((k, v) ∷ m) = ground (arith, size-filter_keys p m)

pub copy_keys-IsMap :
    (p : GoString → Bool) (dst m : StringMap) → IsMap dst → IsMap (copy_keys p dst m)
unfolding copy_keys
copy_keys-IsMap p dst [] d = d
copy_keys-IsMap p dst ((k, v) ∷ m) d = elim (Bool-cases (p k)) [
  | inl e ↦ rw e (copy_keys-IsMap p (insert k v dst) m (insert-IsMap k v dst d))
  | inr e ↦ rw e (copy_keys-IsMap p dst m d)
]

pub size-copy_keys :
    (p : GoString → Bool) (dst m : StringMap) → size (copy_keys p dst m) ≤ size dst + size m
unfolding copy_keys
size-copy_keys p dst [] = omega arith
size-copy_keys p dst ((k, v) ∷ m) = elim (Bool-cases (p k)) [
  | inl e ↦ rw e (omega (arith, size-copy_keys p (insert k v dst) m, size-insert-le k v dst))
  | inr e ↦ rw e (omega (arith, size-copy_keys p dst m))
]

-- The keys that pass the test are the copied map's, where it has them; the others stay.
pub lookup-copy_keys :
    (p : GoString → Bool) (a : GoString) (dst m : StringMap)
    → IsMap m
    → lookup a (copy_keys p dst m)
      ≡ (if p a then prefer (lookup a m) (lookup a dst) else lookup a dst)
unfolding copy_keys lookup
lookup-copy_keys p a dst [] d = ground arith
lookup-copy_keys p a dst ((k, v) ∷ m) d = elim (Bool-cases (k == a)) [
  | inl e ↦
      let same = (text_key.beq_iff k a).0 e in
      let absent : lookup a m ≡ none =
        lookup_absent a m (ap (λ x. elem x (keys m)) (sym same) ∙ d.0) in
      ground (
        arith,
        ap p same,
        absent,
        lookup-copy_keys p a (insert k v dst) m d.1,
        lookup-copy_keys p a dst m d.1,
        lookup-insert k a v dst,
      )
  | inr e ↦ ground (
    arith,
    lookup-copy_keys p a (insert k v dst) m d.1,
    lookup-copy_keys p a dst m d.1,
    lookup-insert k a v dst,
  )
]
