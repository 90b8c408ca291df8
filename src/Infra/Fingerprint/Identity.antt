-- ===== src/Infra/Fingerprint/Identity.antt =====
-- What `FingerprintHash` of internal/infra/fingerprint/hash.go feeds to its digest.
use mathlib.Core.Path.{subst}
use ingest.Prelude.{
  All, Bool-cases, GoString, List, [], ap, ap₂, arith, elem, elem-sort, inl, inr, nat_key, refl,
  some, sort, sym, text_key, true, ℕ, ◌++◌, ◌==◌, ◌∙◌, ◌∷◌, ◌≡◌, ◌≢◌,
}
use ingest.GoMap.{IsMap, SameMap, at, keys, lookup, sorted_keys}
use ingest.GoMap.Laws.{at_of_eq, at_of_some, lookup_absent, lookup_present}
use ingest.GoMap.Order.{sorted_keys-SameMap}
use ingest.Infra.Otlp.{StringMap}
use ingest.Infra.Otlp.Truncate.{Utf8, done, four, one, three, two}
use ingest.Infra.Fingerprint.{fingerprint_hash, identity_bytes, identity_bytes_from, separator_byte}

bytes_from-SameMap :
    (m n : StringMap) (ks : List GoString)
    → SameMap m n
    → identity_bytes_from m ks ≡ identity_bytes_from n ks
unfolding identity_bytes_from
bytes_from-SameMap m n [] h = refl
bytes_from-SameMap m n (k ∷ ks) h = cc (at_of_eq k m n (h k), bytes_from-SameMap m n ks h)

identity_bytes-SameMap :
    (m n : StringMap) → IsMap m → IsMap n → SameMap m n → identity_bytes m ≡ identity_bytes n
unfolding identity_bytes
identity_bytes-SameMap m n dm dn h =
    bytes_from-SameMap m n (sorted_keys m) h
    ∙ ap (identity_bytes_from n) (sorted_keys-SameMap m n dm dn h)

-- The hash of an attribute map does not depend on the order in which the map is iterated: maps with
-- the same entries have the same fingerprint, whatever the digest.
pub fingerprint_hash-SameMap :
    (sum64 : GoString → ℕ) (m n : StringMap)
    → IsMap m
    → IsMap n
    → SameMap m n
    → fingerprint_hash sum64 m ≡ fingerprint_hash sum64 n
unfolding fingerprint_hash lookup
fingerprint_hash-SameMap sum64 [] [] dm dn h = refl
fingerprint_hash-SameMap sum64 [] ((j, w) ∷ n) dm dn h = ground (arith, h j, text_key.beq_iff j j)
fingerprint_hash-SameMap sum64 ((k, v) ∷ m) [] dm dn h = ground (arith, h k, text_key.beq_iff k k)
fingerprint_hash-SameMap sum64 ((k, v) ∷ m) ((j, w) ∷ n) dm dn h =
    ap sum64 (identity_bytes-SameMap ((k, v) ∷ m) ((j, w) ∷ n) dm dn h)

-- Text without the separator byte.
abbrev Free : GoString → Type 0
Free = All (λ c. c ≢ separator_byte)

Utf8-Free : {s : GoString} → Utf8 s → Free s
Utf8-Free done = tt
Utf8-Free (one p u) = (omega arith, Utf8-Free u)
Utf8-Free (two p q k u) = (omega arith, (omega arith, Utf8-Free u))
Utf8-Free (three p q r t k l u) = (omega arith, (omega arith, (omega arith, Utf8-Free u)))
Utf8-Free (four p q r t k l m u) =
    (omega arith, (omega arith, (omega arith, (omega arith, Utf8-Free u))))

-- The separator ends a text in one way only.
split_at_separator :
    (x y s t : GoString)
    → Free x
    → Free y
    → x ++ (separator_byte ∷ s) ≡ y ++ (separator_byte ∷ t)
    → (x ≡ y) × (s ≡ t)
split_at_separator [] [] s t fx fy h = (refl, cc)
split_at_separator [] (c ∷ y) s t fx fy h = absurd (fy.0 (cc))
split_at_separator (b ∷ x) [] s t fx fy h = absurd (fx.0 (cc))
split_at_separator (b ∷ x) (c ∷ y) s t fx fy h =
    let (p, q) = split_at_separator x y s t fx.1 fy.1 (cc) in (ap₂ ◌∷◌ (cc) p, q)

-- The listed keys, and their values in `m`, hold no separator.
abbrev Clean : StringMap → List GoString → Type 0
Clean m = All (λ k. Free k × Free (at k m))

bytes_from_injective :
    (m n : StringMap) (ks js : List GoString)
    → Clean m ks
    → Clean n js
    → identity_bytes_from m ks ≡ identity_bytes_from n js
    → (ks ≡ js) × All (λ k. at k m ≡ at k n) ks
unfolding identity_bytes_from
bytes_from_injective m n [] [] cm cn h = (refl, tt)
bytes_from_injective m n [] ([] ∷ js) cm cn h = cc
bytes_from_injective m n [] ((c ∷ j) ∷ js) cm cn h = cc
bytes_from_injective m n ([] ∷ ks) [] cm cn h = cc
bytes_from_injective m n ((c ∷ k) ∷ ks) [] cm cn h = cc
bytes_from_injective m n (k ∷ ks) (j ∷ js) cm cn h =
    let (p, r) = split_at_separator k j _ _ cm.0.0 cn.0.0 h in
    let (q, r') = split_at_separator (at k m) (at j n) _ _ cm.0.1 cn.0.1 r in
    let (e, a) = bytes_from_injective m n ks js cm.1 cn.1 r' in
    (ap₂ ◌∷◌ p e, (q ∙ ap (λ x. at x n) (sym p), a))

-- The keys and the values are UTF-8, as those of a decoded OTLP message are.
abbrev pub IsText : StringMap → Type 0
IsText m = (k v : GoString) → lookup k m ≡ some v → Utf8 k × Utf8 v

pub All-IsText : (m : StringMap) → All (λ e. Utf8 e.0 × Utf8 e.1) m → IsText m
unfolding lookup
All-IsText [] h k v e = cc
All-IsText ((j, w) ∷ m) h k v e = elim (Bool-cases (j == k)) [
  | inl p ↦
      let q : w ≡ v = ground arith in
      (subst Utf8 ((text_key.beq_iff j k).0 p) h.0.0, subst Utf8 q h.0.1)
  | inr p ↦ All-IsText m h.1 k v (rw p at e)
]

Clean-of_IsText :
    (m : StringMap) (ks : List GoString)
    → IsText m
    → ((k : GoString) → elem k ks ≡ true → elem k (keys m) ≡ true)
    → Clean m ks
Clean-of_IsText m [] t w = tt
Clean-of_IsText m (k ∷ ks) t w =
    let (v, e) = lookup_present k m (w k (ground (arith, text_key.beq_iff k k))) in
    let (uk, uv) = t k v e in
    (
      (Utf8-Free uk, rw (at_of_some k m e) (Utf8-Free uv)),
      Clean-of_IsText m ks t (λ j h. w j (ground (arith, h))),
    )

at-eq : (m : StringMap) (a : GoString) → elem a (keys m) ≡ true → lookup a m ≡ some (at a m)
at-eq m a h = let (v, e) = lookup_present a m h in rw (at_of_some a m e) e

All-elem :
    (P : GoString → Type 0) (a : GoString) (ks : List GoString) → All P ks → elem a ks ≡ true → P a
All-elem P a [] h e = cc
All-elem P a (k ∷ ks) h e = elim (Bool-cases (k == a)) [
  | inl p ↦ rw (← (text_key.beq_iff k a).0 p) h.0
  | inr p ↦ All-elem P a ks h.1 (rw p at e)
]

-- The bytes that the digest is fed identify the map: two maps of UTF-8 text that give the same
-- bytes hold the same entries.
pub identity_bytes_injective :
    (m n : StringMap) → IsText m → IsText n → identity_bytes m ≡ identity_bytes n → SameMap m n
unfolding identity_bytes sorted_keys
identity_bytes_injective m n tm tn h a =
    let in_m =
      λ (k : GoString) (e : elem k (sort (keys m)) ≡ true). sym (elem-sort k (keys m)) ∙ e in
    let in_n =
      λ (k : GoString) (e : elem k (sort (keys n)) ≡ true). sym (elem-sort k (keys n)) ∙ e in
    let (ks, vs) =
      bytes_from_injective m n (sort (keys m)) (sort (keys n))
        (Clean-of_IsText m (sort (keys m)) tm in_m) (Clean-of_IsText n (sort (keys n)) tn in_n) h in
    let same : elem a (keys m) ≡ elem a (keys n) =
      sym (elem-sort a (keys m)) ∙ ap (elem a) ks ∙ elem-sort a (keys n) in
    elim (Bool-cases (elem a (keys m))) [
      | inl e ↦
          at-eq m a e
          ∙ ap some
              (All-elem (λ k. at k m ≡ at k n) a (sort (keys m)) vs (elem-sort a (keys m) ∙ e))
          ∙ sym (at-eq n a (sym same ∙ e))
      | inr e ↦ lookup_absent a m e ∙ sym (lookup_absent a n (sym same ∙ e))
    ]
