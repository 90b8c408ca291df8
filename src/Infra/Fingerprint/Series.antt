-- ===== src/Infra/Fingerprint/Series.antt =====
-- `SeriesHash` of internal/infra/fingerprint/fingerprint.go: what a series is identified by.
use ingest.Prelude.{
  ℕ, false, Option, none, some, [], ◌∷◌, if◌then◌else◌, GoString, lit, ◌≡◌, arith, Bool-cases, inl,
  inr, text_key, ◌==◌,
}
use ingest.GoMap.{lookup, insert, IsMap}
use ingest.GoMap.Laws.{lookup-insert, insert-IsMap, lookup_absent}
use ingest.Infra.Otlp.{StringMap}
use ingest.Infra.Fingerprint.Identity.{fingerprint_hash-SameMap}
use ingest.Infra.Fingerprint.{is_high_cardinality, merge_identity, series_identity, series_hash}

-- `o` if there is a value, and otherwise `p`.
abbrev pub or_else {ℓ} : {A : Type ℓ} → Option A → Option A → Option A
or_else none p = p
or_else (some a) p = some a

lookup-merge_identity :
    (attrs merged : StringMap) (a : GoString)
    → IsMap attrs
    → lookup a (merge_identity merged attrs) ≡ (
        if is_high_cardinality a
        then lookup a merged
        else or_else (lookup a attrs) (lookup a merged))
unfolding merge_identity lookup
lookup-merge_identity [] merged a d = ground arith
lookup-merge_identity ((k, v) ∷ attrs) merged a d = ground (
  arith,
  lookup-merge_identity attrs (if is_high_cardinality k then merged else insert k v merged) a d.1,
  lookup-insert k a v merged,
  text_key.beq_iff k a,
  lookup_absent a attrs,
  lookup_absent k attrs d.0,
  d.0,
)

merge_identity-IsMap :
    (attrs merged : StringMap) → IsMap merged → IsMap (merge_identity merged attrs)
unfolding merge_identity
merge_identity-IsMap [] merged d = d
merge_identity-IsMap ((k, v) ∷ attrs) merged d = elim (Bool-cases (is_high_cardinality k)) [
  | inl e ↦ rw e (merge_identity-IsMap attrs merged d)
  | inr e ↦ rw e (merge_identity-IsMap attrs (insert k v merged) (insert-IsMap k v merged d))
]

-- The identity of a series, entry by entry.
pub lookup-series_identity :
    (name temporality : GoString) (res dp : StringMap) (a : GoString)
    → IsMap res
    → IsMap dp
    → lookup a (series_identity name temporality res dp) ≡ (
        if lit "__name__" == a
        then some name
        else if lit "__temporality__" == a
        then some temporality
        else if is_high_cardinality a
        then none
        else or_else (lookup a dp) (lookup a res))
unfolding series_identity lookup
lookup-series_identity name temporality res dp a dr dd = ground (
  arith,
  lookup-insert (lit "__name__") a name
      (insert (lit "__temporality__") temporality (merge_identity (merge_identity [] res) dp)),
  lookup-insert (lit "__temporality__") a temporality (merge_identity (merge_identity [] res) dp),
  lookup-merge_identity dp (merge_identity [] res) a dd,
  lookup-merge_identity res [] a dr,
)

-- The attribute maps agree on every key that counts for the identity.
abbrev pub SameIdentity : StringMap → StringMap → Type 0
SameIdentity m n = (a : GoString) → is_high_cardinality a ≡ false → lookup a m ≡ lookup a n

series_identity-IsMap :
    (name temporality : GoString) (res dp : StringMap)
    → IsMap (series_identity name temporality res dp)
unfolding series_identity
series_identity-IsMap name temporality res dp = insert-IsMap (lit "__name__") name _ (
    insert-IsMap (lit "__temporality__") temporality _
      (merge_identity-IsMap dp _ (merge_identity-IsMap res [] tt)))

-- Two data points of one metric and temporality have the same series hash, whatever the digest, if
-- their resource attributes and their own attributes agree on every key that is not dropped for its
-- cardinality; the values under the dropped keys and the order of iteration do not count.
pub series_hash-SameIdentity :
    (sum64 : GoString → ℕ) (name temporality : GoString) (res res' dp dp' : StringMap)
    → IsMap res
    → IsMap res'
    → IsMap dp
    → IsMap dp'
    → SameIdentity res res'
    → SameIdentity dp dp'
    → series_hash sum64 name temporality res dp ≡ series_hash sum64 name temporality res' dp'
unfolding series_hash
series_hash-SameIdentity sum64 name temporality res res' dp dp' dr dr' dd dd' hr hd =
    fingerprint_hash-SameMap sum64 (series_identity name temporality res dp)
      (series_identity name temporality res' dp') (series_identity-IsMap name temporality res dp)
      (series_identity-IsMap name temporality res' dp')
      λ a. ground (
        arith,
        lookup-series_identity name temporality res dp a dr dd,
        lookup-series_identity name temporality res' dp' a dr' dd',
        hr a,
        hd a,
      )
