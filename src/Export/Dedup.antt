-- ===== src/Export/Dedup.antt =====
-- The cache of published series rows and its buckets.
use mathlib.Core.Path.{subst}
use ingest.Metrics.Row.{SeriesRow}
use ingest.Prelude.{
  Bool, Bool-cases, GoString, Key-false, Key-sound, List, Option, Option-cases, [], ap, arith, elem,
  false, if◌then◌else◌, inl, inr, leb, nat_key, none, refl, some, sym, text_key, true, ℕ, ◌==◌, ◌∙◌,
  ◌∷◌, ◌≡◌, ◌≢◌, ◌≤◌, ◌⊎◌,
}
use ingest.LruCache.{Lru}
use ingest.Export.{
  DedupKey, Publisher, bucket, dedup_key, dedup_key_order, filter_loop, filter_unpublished,
  is_current, mark_loop, mark_published, publish_filtered, publish_metric_pair, publish_pair,
}

module _ {Cache : Type 0} (lru : Lru DedupKey ℕ Cache) where
  abbrev unknown : ℕ → Cache → List SeriesRow → List SeriesRow
  unknown bucket cache [] = []
  unknown bucket cache (r ∷ rs) =
      if is_current lru bucket (lru.peek (dedup_key r) cache)
      then unknown bucket cache rs
      else r ∷ unknown bucket cache rs

  -- The cache has the tenant and the fingerprint of the row, in this bucket or a later one.
  abbrev pub IsKnown : ℕ → Cache → SeriesRow → Type 0
  IsKnown bucket cache r =
      (last : ℕ) × (lru.peek (r.tenant_id, r.fingerprint) cache ≡ some last) × (bucket ≤ last)

  -- `fresh` are the rows that the cache does not know, in order.
  pub data AreFresh (bucket : ℕ) (cache : Cache) : List SeriesRow → List SeriesRow → Type 0 where
    no_rows : AreFresh bucket cache [] []
    known :
        {r : SeriesRow} {rs fresh : List SeriesRow}
        → IsKnown bucket cache r
        → AreFresh bucket cache rs fresh
        → AreFresh bucket cache (r ∷ rs) fresh
    new :
        {r : SeriesRow} {rs fresh : List SeriesRow}
        → ¬ IsKnown bucket cache r
        → AreFresh bucket cache rs fresh
        → AreFresh bucket cache (r ∷ rs) (r ∷ fresh)

  unknown-AreFresh :
      (bucket : ℕ) (cache : Cache) (rs : List SeriesRow)
      → AreFresh bucket cache rs (unknown bucket cache rs)
  unfolding dedup_key
  unknown-AreFresh bucket cache [] = no_rows
  unknown-AreFresh bucket cache (r ∷ rs) =
      elim (Option-cases (lru.peek (r.tenant_id, r.fingerprint) cache)) [
        | inl e ↦
            rw (e, unknown) (new (λ k. absurd (cc (e, k.1))) (unknown-AreFresh bucket cache rs))
        | inr (last, e) ↦ elim (Bool-cases (leb bucket last)) [
          | inl le ↦
              rw (e, unknown, le) (known (last, e, ground arith) (unknown-AreFresh bucket cache rs))
          | inr lt ↦
              rw (e, unknown, lt)
                (new (λ k. absurd (ground (arith, e, k.1, k.2))) (unknown-AreFresh bucket cache rs))
        ]
      ]

  -- the same entries
  abbrev pub SameEntries : Cache → Cache → Type 0
  SameEntries c d = (k : DedupKey) → lru.peek k c ≡ lru.peek k d

  unknown-SameEntries :
      (bucket : ℕ) (c d : Cache) (rs : List SeriesRow)
      → SameEntries c d
      → unknown bucket c rs ≡ unknown bucket d rs
  unknown-SameEntries bucket c d [] h = refl
  unknown-SameEntries bucket c d (r ∷ rs) h =
      ground (arith, h (dedup_key r), unknown-SameEntries bucket c d rs h)

  filter_loop_lem :
      (bucket : ℕ) (rs : List SeriesRow) (c : Cache)
      → SameEntries (filter_loop lru bucket rs c).0 c
        × ((filter_loop lru bucket rs c).1 ≡ unknown bucket c rs)
  unfolding filter_loop
  filter_loop_lem bucket [] c = ((λ k. refl), refl)
  filter_loop_lem bucket (r ∷ rs) c =
      let c' = (lru.get (dedup_key r) c).0 in
      let keeps : SameEntries c' c = λ k. lru.get_keeps (dedup_key r) k c in
      let (same, out) = filter_loop_lem bucket rs c' in
      let rest = out ∙ unknown-SameEntries bucket c' c rs keeps in
      let value = lru.get_value (dedup_key r) c in
      elim (Bool-cases (is_current lru bucket (lru.peek (dedup_key r) c))) [
        | inl e ↦ rw (filter_loop, value, e) ((λ k. same k ∙ keeps k), rest)
        | inr e ↦ rw (filter_loop, value, e) ((λ k. same k ∙ keeps k), ap (λ x. r ∷ x) rest)
      ]

  abbrev pub dedup_keys : List SeriesRow → List DedupKey
  dedup_keys [] = []
  dedup_keys (r ∷ rs) = dedup_key r ∷ dedup_keys rs

  -- `d` is `c` with the rows marked: an entry is forgotten, is the bucket, or is as before for a
  -- key that no row has.
  abbrev pub IsMarked : ℕ → List SeriesRow → Cache → Cache → Type 0
  IsMarked bucket rs c d =
      (k : DedupKey)
      → (lru.peek k d ≡ none)
        ⊎ ((lru.peek k d ≡ some bucket)
            ⊎ (elem k (dedup_keys rs) ≡ false) × (lru.peek k d ≡ lru.peek k c))

  mark_loop-IsMarked :
      (rs : List SeriesRow) (bucket : ℕ) (c : Cache)
      → IsMarked bucket rs c (mark_loop lru rs bucket c)
  unfolding mark_loop
  mark_loop-IsMarked [] bucket c k = inr (inr (refl, refl))
  mark_loop-IsMarked (r ∷ rs) bucket c k =
      elim (mark_loop-IsMarked rs bucket (lru.add (dedup_key r) bucket c) k) [
        | inl gone ↦ inl gone
        | inr (inl now) ↦ inr (inl now)
        | inr (inr (absent, kept)) ↦ elim (Bool-cases (dedup_key r == k)) [
          | inl e ↦
              let same = sym (Key-sound (dedup_key r) k e) in
              inr (
                inl (
                  kept
                  ∙ ap (λ j. lru.peek j (lru.add (dedup_key r) bucket c)) same
                  ∙ lru.add_self (dedup_key r) bucket c))
          | inr e ↦
              elim (lru.add_other (dedup_key r) k bucket c
                (λ p. Key-false (dedup_key r) k e (sym p))) [
                  | inl gone ↦ inl (kept ∙ gone)
                  | inr other ↦ inr (inr (ground (arith, e, absent), kept ∙ other))
                ]
        ]
      ]

  module _ {M V W : Type 0} (series_first : Bool) (series : Publisher SeriesRow V)
      (metrics : Publisher M W) where
    -- what a call of `publishPair` did with the rows `fresh` of the series
    unfoldable pub PairOutcome :
        ℕ → List M → List SeriesRow → Cache × V × W → (Cache × V × W) × Option GoString → Type 0
    PairOutcome bucket rows fresh (c, v, w) ((c', v', w'), err) =
        (v' ≡ (series fresh v).0)
        × (w' ≡ (metrics rows w).0)
        × ((err ≡ none)
              × ((series fresh v).1 ≡ none)
              × ((metrics rows w).1 ≡ none)
              × IsMarked bucket fresh c c'
            ⊎ (err ≢ none) × SameEntries c' c)

    IsMarked-SameEntries :
        (bucket : ℕ) (rs : List SeriesRow) (c' c d : Cache)
        → SameEntries c' c
        → IsMarked bucket rs c' d
        → IsMarked bucket rs c d
    IsMarked-SameEntries bucket rs c' c d same m k = elim (m k) [
      | inl gone ↦ inl gone
      | inr (inl now) ↦ inr (inl now)
      | inr (inr (absent, kept)) ↦ inr (inr (absent, kept ∙ same k))
    ]

    publish_filtered-PairOutcome :
        (bucket : ℕ) (rows : List M) (fresh : List SeriesRow) (c c' : Cache) (v : V) (w : W)
        → SameEntries c' c
        → PairOutcome bucket rows fresh
            (c, v, w)
            (publish_filtered lru true series_first bucket series metrics rows fresh (c', v, w))
    unfolding PairOutcome publish_filtered publish_metric_pair mark_published
    publish_filtered-PairOutcome bucket rows fresh c c' v w same =
        elim (Option-cases (series fresh v).1) [
          | inl e ↦ elim (Option-cases (metrics rows w).1) [
            | inl e2 ↦
                rw (publish_filtered, publish_metric_pair, mark_published, e, e2)
                  (
                    refl,
                    refl,
                    inl (
                      refl,
                      refl,
                      refl,
                      IsMarked-SameEntries bucket fresh c' c (mark_loop lru fresh bucket c') same
                          (mark_loop-IsMarked fresh bucket c'),
                    ),
                  )
            | inr (m, e2) ↦
                rw (publish_filtered, publish_metric_pair, e, e2)
                  (refl, refl, inr ((λ p. absurd (cc p)), same))
          ]
          | inr (s, e) ↦ elim (Option-cases (metrics rows w).1) [
            | inl e2 ↦
                rw (publish_filtered, publish_metric_pair, e, e2)
                  (refl, refl, inr ((λ p. absurd (cc p)), same))
            | inr (m, e2) ↦ elim (Bool-cases series_first) [
              | inl e3 ↦
                  rw (publish_filtered, publish_metric_pair, e, e2, e3)
                    (refl, refl, inr ((λ p. absurd (cc p)), same))
              | inr e3 ↦
                  rw (publish_filtered, publish_metric_pair, e, e2, e3)
                    (refl, refl, inr ((λ p. absurd (cc p)), same))
            ]
          ]
        ]

    publish_unknown-PairOutcome :
        (bucket : ℕ) (rows : List M) (series_rows : List SeriesRow) (c : Cache) (v : V) (w : W)
        → PairOutcome bucket rows
            (unknown bucket c series_rows)
            (c, v, w)
            (publish_pair lru true series_first bucket series metrics rows series_rows (c, v, w))
    unfolding PairOutcome publish_pair filter_unpublished
    publish_unknown-PairOutcome bucket rows series_rows c v w =
        let c' = (filter_loop lru bucket series_rows c).0 in
        let (same, out) = filter_loop_lem bucket series_rows c in
        let run : List SeriesRow → (Cache × V × W) × Option GoString =
          λ x. publish_filtered lru true series_first bucket series metrics rows x (c', v, w) in
        subst (λ x. PairOutcome bucket rows (unknown bucket c series_rows) (c, v, w) (run x))
          (sym out)
          (publish_filtered-PairOutcome bucket rows (unknown bucket c series_rows) c c' v w same)

    -- `publishPair` gives the series publisher exactly the series rows that the cache does not know
    -- in this bucket or a later one. It succeeds only if both publishes do, and then marks these
    -- rows: an entry of the cache is afterwards forgotten, is the bucket, or is untouched and of
    -- another key. On an error every entry is as before, so that the rows stay eligible.
    pub publish_pair-PairOutcome :
        (bucket : ℕ) (rows : List M) (series_rows : List SeriesRow) (c : Cache) (v : V) (w : W)
        → (fresh : List SeriesRow) × AreFresh bucket c series_rows fresh
          × PairOutcome bucket rows fresh
              (c, v, w)
              (publish_pair lru true series_first bucket series metrics rows series_rows (c, v, w))
    publish_pair-PairOutcome bucket rows series_rows c v w = (
      unknown bucket c series_rows,
      unknown-AreFresh bucket c series_rows,
      publish_unknown-PairOutcome bucket rows series_rows c v w,
    )
