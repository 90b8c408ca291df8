-- ===== src/Core/Token/Order.antt =====
-- The deduplication token over the records of a batch, in any order.
use Prim.Native.Nat.{min, max}
use ingest.Prelude.{
  Bool, GoString, List, Option, Option-cases, [], ap, arith, false, if◌then◌else◌, inl, inr,
  nat_beq, nat_key, none, refl, some, sym, text_key, true, ℕ, ◌&&◌, ◌++◌, ◌==◌, ◌||◌, ◌∙◌, ◌∷◌, ◌≡◌,
  ◌≤◌,
}
use ingest.Prelude.Digits.{hex_fixed}
use ingest.GoMap.{GoMap, IsMap, SameMap, lookup, sorted_keys}
use ingest.GoMap.Laws.{insert-IsMap, lookup-insert}
use ingest.GoMap.Order.{sorted_keys-SameMap}
use ingest.Core.{KafkaRecord}
use ingest.Core.Token.{
  OffsetSpan, dedup_token, fnv1a, fnv1a_offset, render_spans, spans_from, widen,
}

-- Some record of the list has this partition and this offset.
abbrev pub has : ℕ → ℕ → List KafkaRecord → Bool
has p o [] = false
has p o (r ∷ rs) = (nat_beq r.partition p && nat_beq r.offset o) || has p o rs

-- `m` holds, for each partition, the least and the greatest offset of the records of `test`.
record IsSpans (m : GoMap ℕ OffsetSpan) (test : ℕ → ℕ → Bool) : Type 0 where
  missing : (p o : ℕ) → lookup p m ≡ none → test p o ≡ false
  least : (p : ℕ) (s : OffsetSpan) → lookup p m ≡ some s → test p s.min_offset ≡ true
  greatest : (p : ℕ) (s : OffsetSpan) → lookup p m ≡ some s → test p s.max_offset ≡ true
  bounds :
      (p o : ℕ) (s : OffsetSpan)
      → lookup p m ≡ some s
      → test p o ≡ true
      → (s.min_offset ≤ o) × (o ≤ s.max_offset)

abbrev seen_also : (ℕ → ℕ → Bool) → KafkaRecord → ℕ → ℕ → Bool
seen_also test r p o = (nat_beq r.partition p && nat_beq r.offset o) || test p o

-- The span of a partition once a record with this offset has been seen.
abbrev span_after : Option OffsetSpan → ℕ → OffsetSpan
span_after none o = record { min_offset = o; max_offset = o }
span_after (some s) o = record { min_offset = min s.min_offset o; max_offset = max s.max_offset o }

lookup-widen :
    (m : GoMap ℕ OffsetSpan) (r : KafkaRecord) (p : ℕ)
    → lookup p (widen m r)
      ≡ (if r.partition == p then some (span_after (lookup r.partition m) r.offset) else lookup p m)
unfolding widen
lookup-widen m r p = elim (Option-cases (lookup r.partition m)) [
  | inl e ↦ rw (e, widen) (lookup-insert r.partition p _ m)
  | inr (s, e) ↦ rw (e, widen) (lookup-insert r.partition p _ m)
]

widen-IsMap : (m : GoMap ℕ OffsetSpan) (r : KafkaRecord) → IsMap m → IsMap (widen m r)
unfolding widen
widen-IsMap m r d = elim (Option-cases (lookup r.partition m)) [
  | inl e ↦ rw (e, widen) (insert-IsMap r.partition _ m d)
  | inr (s, e) ↦ rw (e, widen) (insert-IsMap r.partition _ m d)
]

module _ (m : GoMap ℕ OffsetSpan) (test : ℕ → ℕ → Bool) (r : KafkaRecord) (h : IsSpans m test) where
  abbrev old : Option OffsetSpan
  old = lookup r.partition m

  widen-IsSpans : IsSpans (widen m r) (seen_also test r)
  widen-IsSpans = elim (Option-cases old) [
    | inl e ↦ record {
      missing = λ p o l. ground (arith, lookup-widen m r p, h.missing p o, e);
      least = λ p s l. ground (arith, lookup-widen m r p, h.least p s, e);
      greatest = λ p s l. ground (arith, lookup-widen m r p, h.greatest p s, e);
      bounds = λ p o s l t. ground (arith, lookup-widen m r p, h.bounds p o s, h.missing p o, e);
    }
    | inr (u, e) ↦ record {
      missing = λ p o l. ground (arith, lookup-widen m r p, h.missing p o, e);
      least = λ p s l. ground (arith, lookup-widen m r p, h.least p s, h.least p u, e);
      greatest = λ p s l. ground (arith, lookup-widen m r p, h.greatest p s, h.greatest p u, e);
      bounds = λ p o s l t. ground (arith, lookup-widen m r p, h.bounds p o s, h.bounds p o u, e);
    }
  ]

abbrev seen_all : (ℕ → ℕ → Bool) → List KafkaRecord → ℕ → ℕ → Bool
seen_all test [] = test
seen_all test (r ∷ rs) = seen_all (seen_also test r) rs

seen_all-eq :
    (test : ℕ → ℕ → Bool) (rs : List KafkaRecord) (p o : ℕ)
    → seen_all test rs p o ≡ (has p o rs || test p o)
seen_all-eq test [] p o = refl
seen_all-eq test (r ∷ rs) p o = ground (arith, seen_all-eq (seen_also test r) rs p o)

spans_from-IsSpans :
    (m : GoMap ℕ OffsetSpan) (test : ℕ → ℕ → Bool) (rs : List KafkaRecord)
    → IsSpans m test
    → IsSpans (spans_from m rs) (seen_all test rs)
unfolding spans_from
spans_from-IsSpans m test [] h = h
spans_from-IsSpans m test (r ∷ rs) h =
    spans_from-IsSpans (widen m r) (seen_also test r) rs (widen-IsSpans m test r h)

spans_from-IsMap :
    (m : GoMap ℕ OffsetSpan) (rs : List KafkaRecord) → IsMap m → IsMap (spans_from m rs)
unfolding spans_from
spans_from-IsMap m [] d = d
spans_from-IsMap m (r ∷ rs) d = spans_from-IsMap (widen m r) rs (widen-IsMap m r d)

nothing_seen : IsSpans [] (λ p o. false)
unfolding lookup
nothing_seen = record {
  missing = λ p o e. refl;
  least = λ p s e. cc;
  greatest = λ p s e. cc;
  bounds = λ p o s e t. cc;
}

module _ {m n : GoMap ℕ OffsetSpan} {t u : ℕ → ℕ → Bool} (hm : IsSpans m t) (hn : IsSpans n u)
    (same : (p o : ℕ) → t p o ≡ u p o) where
  one_side : (p : ℕ) (s : OffsetSpan) → lookup p m ≡ some s → lookup p n ≡ none → ⊥
  one_side p s e f = cc (hm.least p s e, same p s.min_offset, hn.missing p s.min_offset f)

  both_sides : (p : ℕ) (s v : OffsetSpan) → lookup p m ≡ some s → lookup p n ≡ some v → s ≡ v
  both_sides p s v e f = ground (
    arith,
    hm.bounds p v.min_offset s e,
    hm.bounds p v.max_offset s e,
    hn.bounds p s.min_offset v f,
    hn.bounds p s.max_offset v f,
    hm.least p s e,
    hm.greatest p s e,
    hn.least p v f,
    hn.greatest p v f,
    same p s.min_offset,
    same p s.max_offset,
    same p v.min_offset,
    same p v.max_offset,
  )

IsSpans-SameMap :
    (m n : GoMap ℕ OffsetSpan) (t u : ℕ → ℕ → Bool)
    → IsSpans m t
    → IsSpans n u
    → ((p o : ℕ) → t p o ≡ u p o)
    → SameMap m n
IsSpans-SameMap m n t u hm hn same p = elim (Option-cases (lookup p m)) [
  | inl e ↦ elim (Option-cases (lookup p n)) [
    | inl f ↦ e ∙ sym f
    | inr (v, f) ↦ absurd (one_side hn hm (λ q o. sym (same q o)) p v f e)
  ]
  | inr (s, e) ↦ elim (Option-cases (lookup p n)) [
    | inl f ↦ absurd (one_side hm hn same p s e f)
    | inr (v, f) ↦ e ∙ ap some (both_sides hm hn same p s v e f) ∙ sym f
  ]
]

render_spans-SameMap :
    (m n : GoMap ℕ OffsetSpan) (ps : List ℕ) → SameMap m n → render_spans m ps ≡ render_spans n ps
unfolding render_spans
render_spans-SameMap m n [] h = refl
render_spans-SameMap m n (p ∷ ps) h = ground (arith, h p, render_spans-SameMap m n ps h)

-- Two batches that hold the same partition and offset pairs get the same token, in whatever order
-- and however often the records stand in them: a redelivered batch is recognised.
pub dedup_token-SameOffsets :
    (signal : GoString) (recs recs' : List KafkaRecord)
    → ((p o : ℕ) → has p o recs ≡ has p o recs')
    → dedup_token signal recs ≡ dedup_token signal recs'
unfolding dedup_token
dedup_token-SameOffsets signal recs recs' h =
    let m = spans_from [] recs in
    let n = spans_from [] recs' in
    let same =
      IsSpans-SameMap m n (seen_all (λ p o. false) recs) (seen_all (λ p o. false) recs')
        (spans_from-IsSpans [] (λ p o. false) recs nothing_seen)
        (spans_from-IsSpans [] (λ p o. false) recs' nothing_seen)
        (λ p o. ground (
          arith,
          seen_all-eq (λ p o. false) recs p o,
          seen_all-eq (λ p o. false) recs' p o,
          h p o,
        )) in
    let ks =
      sorted_keys-SameMap m n (spans_from-IsMap [] recs tt) (spans_from-IsMap [] recs' tt) same in
    ap (λ (text : GoString). hex_fixed 16 (fnv1a fnv1a_offset (signal ++ text)))
      (render_spans-SameMap m n (sorted_keys m) same ∙ ap (render_spans n) ks)
