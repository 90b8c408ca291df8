-- ===== src/Stats/Conserved.antt =====
-- The recorder of internal/ingestion/ingestionstats/recorder.go over any order of its events.
use mathlib.Core.Path.{subst}
use ingest.Prelude.{
  Bool, Bool-cases, List, List-cases, Option, [], ap, arith, false, inl, inr, nat_key, refl, sym,
  text_key, true, ℕ, ◌%◌, ◌++◌, ◌+◌, ◌^◌, ◌∙◌, ◌∷◌, ◌≡◌,
}
use ingest.GoMap.{lookup}
use ingest.Stats.{
  Books, HourlyRecorder, StatKey, StatRow, StatsEvent, close_recorder, closed, flush, flushed,
  record_rows, record_stats, recorded, run_events, snapshot, stat_key_order, step, values,
}
use ingest.Stats.Tally.{
  Count, IsLedger, count_of, given, record_rows-IsLedger, record_rows-count, tally, tally-append,
  tally-values,
}

-- the rows of the calls of `Record` before the first `Close`
abbrev pub accepted : List StatsEvent → List StatRow
accepted [] = []
accepted (recorded rows ∷ es) = given rows ++ accepted es
accepted (flushed ok ∷ es) = accepted es
accepted (closed ∷ es) = []

abbrev pub start : Books
start = record { recorder = record { rows = []; closing = false }; published = []; dropped = [] }

ignored :
    (r : HourlyRecorder) (rows : List (Option StatRow)) → r.closing ≡ true → record_stats r rows ≡ r
unfolding record_stats
ignored r rows q = ground arith

module _ (c : Count) (k : StatKey) where
  -- what the books hold of a key
  abbrev pub held : Books → ℕ
  held b = tally c k b.published + tally c k b.dropped + count_of c k (lookup k b.recorder.rows)

  flush-held :
      (b : Books) (ok : Bool)
      → IsLedger b.recorder.rows
      → (held (step b (flushed ok)) ≡ held b)
        × ((step b (flushed ok)).recorder.rows ≡ [])
        × ((step b (flushed ok)).recorder.closing ≡ b.recorder.closing)
  unfolding step flush snapshot lookup
  flush-held b ok l =
      let all = tally-values c k b.recorder.rows l in
      elim (List-cases (values b.recorder.rows)) [
        | inl e ↦
            rw (step, flush, snapshot, e)
              (
                omega (
                  arith,
                  tally-append c k b.published [],
                  tally-append c k b.dropped [],
                  all,
                  ap (tally c k) e,
                ),
                refl,
                refl,
              )
        | inr (x, xs, e) ↦ elim (Bool-cases ok) [
          | inl y ↦
              rw (step, flush, snapshot, e, y)
                (
                  omega (
                    arith,
                    tally-append c k b.published (x ∷ xs),
                    tally-append c k b.dropped [],
                    all,
                    ap (tally c k) e,
                  ),
                  refl,
                  refl,
                )
          | inr y ↦
              rw (step, flush, snapshot, e, y)
                (
                  omega (
                    arith,
                    tally-append c k b.published [],
                    tally-append c k b.dropped (x ∷ xs),
                    all,
                    ap (tally c k) e,
                  ),
                  refl,
                  refl,
                )
        ]
      ]

  -- after `Close`, events change nothing of what is held
  closed-held :
      (b : Books) (es : List StatsEvent)
      → b.recorder.closing ≡ true
      → IsLedger b.recorder.rows
      → held (run_events b es) ≡ held b
  unfolding run_events step record_stats close_recorder
  closed-held b [] q l = refl
  closed-held b (recorded rows ∷ es) q l =
      ap (λ r. held (run_events (record b { recorder = r }) es)) (ignored b.recorder rows q)
      ∙ closed-held b es q l
  closed-held b (flushed ok ∷ es) q l =
      let f = flush-held b ok l in
      closed-held (step b (flushed ok)) es (f.2 ∙ q) (subst IsLedger (sym f.1) tt) ∙ f.0
  closed-held b (closed ∷ es) q l = closed-held (step b closed) es refl l

  open-held :
      (b : Books) (es : List StatsEvent)
      → b.recorder.closing ≡ false
      → IsLedger b.recorder.rows
      → held (run_events b es) % 2 ^ 64 ≡ (held b + tally c k (accepted es)) % 2 ^ 64
  unfolding run_events step record_stats close_recorder
  open-held b [] q l = ap (λ n. n % 2 ^ 64) (omega arith)
  open-held b (recorded rows ∷ es) q l =
      let b' : Books = record b {
        recorder = record { rows = record_rows b.recorder.rows rows; closing = false };
      } in
      let grown = record_rows-count c k b.recorder.rows rows in
      let rest = open-held b' es refl (record_rows-IsLedger b.recorder.rows rows l) in
      rw (step, record_stats, q)
        (omega (arith, rest, grown, tally-append c k (given rows) (accepted es)))
  open-held b (flushed ok ∷ es) q l =
      let f = flush-held b ok l in
      let rest = open-held (step b (flushed ok)) es (f.2 ∙ q) (subst IsLedger (sym f.1) tt) in
      omega (arith, rest, f.0)
  open-held b (closed ∷ es) q l =
      ap (λ n. n % 2 ^ 64) (closed-held (step b closed) es refl l ∙ omega arith)

  -- Whatever the order of calls of `Record`, flushes that succeed or fail, and calls of `Close`:
  -- what was published, was dropped by a failed flush, or waits in the map for a key adds up, in
  -- 64 bits, to what the calls of `Record` before the first `Close` gave for it, and calls after
  -- it change nothing.
  pub run_events-conserved :
      (es : List StatsEvent)
      → held (run_events start es) % 2 ^ 64 ≡ tally c k (accepted es) % 2 ^ 64
  unfolding lookup
  run_events-conserved es = open-held start es refl tt ∙ ap (λ n. n % 2 ^ 64) (omega arith)
