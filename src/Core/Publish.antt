-- ===== src/Core/Publish.antt =====
-- `Producer.Publish` of internal/ingestion/core/producer.go over the rows of a request.
use mathlib.Core.List.{append-nil}
use ingest.Prelude.{
  GoString, List, Option, Option-cases, [], arith, inl, inr, nat_key, none, refl, some, sym,
  text_key, ℕ, ◌++◌, ◌∷◌, ◌≡◌,
}
use ingest.Core.{
  Broker, KafkaRecord, Producer, delivered, first_err, marshal_error, marshal_rows, publish,
  published,
}

module _ {Row : Type 0} (marshal : Row → Option GoString) (now : ℕ) (p : Producer Row) where
  -- One record for each row, in order: its topic and time, its key, and its encoding.
  pub data AreRecordsOf : List Row → List KafkaRecord → Type 0 where
    none_left : AreRecordsOf [] []
    one_more :
        {r : Row} {rows : List Row} {rec : KafkaRecord} {records : List KafkaRecord}
        → rec.topic ≡ p.topic
        → rec.key ≡ p.key_func r
        → some rec.value ≡ marshal r
        → rec.timestamp ≡ now
        → AreRecordsOf rows records
        → AreRecordsOf (r ∷ rows) (rec ∷ records)

  marshal_rows-AreRecordsOf :
      (rows : List Row) (records : List KafkaRecord)
      → marshal_rows marshal now p rows ≡ some records
      → AreRecordsOf rows records
  unfolding marshal_rows
  marshal_rows-AreRecordsOf [] [] h = none_left
  marshal_rows-AreRecordsOf [] (rec ∷ records) h = cc
  marshal_rows-AreRecordsOf (r ∷ rows) [] h = absurd (ground arith)
  marshal_rows-AreRecordsOf (r ∷ rows) (rec ∷ records) h = elim (Option-cases (marshal r)) [
    | inl e ↦ absurd (ground arith)
    | inr (v, e) ↦
        one_more (ground arith) (ground arith) (ground arith) (ground arith)
          (marshal_rows-AreRecordsOf rows records (ground arith))
  ]

  marshal_rows-none :
      (xs : List Row) (r : Row) (ys : List Row)
      → marshal r ≡ none
      → marshal_rows marshal now p (xs ++ r ∷ ys) ≡ none
  unfolding marshal_rows
  marshal_rows-none [] r ys h = rw (h, marshal_rows)
  marshal_rows-none (x ∷ xs) r ys h = ground (arith, marshal_rows-none xs r ys h)

delivered_all :
    (broker : Broker) (rs : List KafkaRecord)
    → first_err broker rs ≡ none
    → delivered broker rs ≡ rs
unfolding first_err delivered
delivered_all broker [] h = refl
delivered_all broker (r ∷ rs) h = ground (arith, delivered_all broker rs)

module _ {Row : Type 0} (marshal : Row → Option GoString) (broker : Broker) (now : ℕ)
    (p : Producer Row) (log : List KafkaRecord) where
  -- A publish that reports success has sent every row: the log of the broker has grown by one record
  -- for each row, in the order of the rows, with the producer's topic and time, the row's key and
  -- its encoding.
  pub publish-published :
      (rows : List Row)
      → (publish marshal broker now p log rows).1 ≡ published
      → (records : List KafkaRecord) × AreRecordsOf marshal now p rows records
        × ((publish marshal broker now p log rows).0 ≡ log ++ records)
  unfolding publish
  publish-published [] h = ([], none_left, sym (append-nil log))
  publish-published (r ∷ rs) h = elim (Option-cases (marshal_rows marshal now p (r ∷ rs))) [
    | inl e ↦ absurd (ground arith)
    | inr ([], e) ↦
        ([], marshal_rows-AreRecordsOf marshal now p (r ∷ rs) [] e, ground (arith, append-nil log))
    | inr (rec ∷ records, e) ↦ (
      rec ∷ records,
      marshal_rows-AreRecordsOf marshal now p (r ∷ rs) (rec ∷ records) e,
      ground (arith, e, delivered_all broker (rec ∷ records)),
    )
  ]

  -- One row that cannot be marshalled stops the whole request: the publish fails, and nothing at all
  -- is sent, neither the rows before it nor those behind.
  pub publish-marshal_error :
      (xs : List Row) (r : Row) (ys : List Row)
      → marshal r ≡ none
      → publish marshal broker now p log (xs ++ r ∷ ys) ≡ (log, marshal_error)
  unfolding publish
  publish-marshal_error [] r ys h = rw (marshal_rows-none marshal now p [] r ys h, publish)
  publish-marshal_error (x ∷ xs) r ys h =
      rw (marshal_rows-none marshal now p (x ∷ xs) r ys h, publish)
