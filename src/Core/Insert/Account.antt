-- ===== src/Core/Insert/Account.antt =====
-- What a polled batch decodes to, and what the dead-letter queue counts of it.
use ingest.Prelude.{
  GoString, List, Option, [], arith, inl, inr, length, nat_key, none, refl, some, suc, text_key, ℕ,
  ◌+◌, ◌∷◌, ◌≡◌, ◌⊎◌,
}
use ingest.Core.{Broker, Dlq, KafkaRecord, Sinks, publish_all}
use ingest.Core.Insert.{
  InsertOutcome, decode_rows, insert_decoded, insert_error, insert_handler, panicked, taken,
}

-- The rows of the records that decode, in order.
abbrev pub decodable : {Row : Type 0} → (GoString → Option Row) → List KafkaRecord → List Row
decodable unmarshal [] = []
decodable unmarshal (rec ∷ recs) = elim (unmarshal rec.value) [
  | none ↦ decodable unmarshal recs
  | some row ↦ row ∷ decodable unmarshal recs
]

abbrev pub undecodable : {Row : Type 0} → (GoString → Option Row) → List KafkaRecord → ℕ
undecodable unmarshal [] = 0
undecodable unmarshal (rec ∷ recs) = elim (unmarshal rec.value) [
  | none ↦ suc (undecodable unmarshal recs)
  | some row ↦ undecodable unmarshal recs
]

-- The counters when the batch reaches the writer.
abbrev pub decoded :
    {Row : Type 0} → (GoString → Option Row) → List KafkaRecord → Sinks Row → Sinks Row
decoded unmarshal recs s = record s { malformed = s.malformed + undecodable unmarshal recs }

module _ {Row : Type 0} (unmarshal : GoString → Option Row) where
  pub decoded_length :
      (recs : List KafkaRecord)
      → length (decodable unmarshal recs) + undecodable unmarshal recs ≡ length recs
  decoded_length [] = omega arith
  decoded_length (rec ∷ recs) = ground (arith, decoded_length recs)

  pub decode_rows-eq :
      (recs : List KafkaRecord) (s : Sinks Row)
      → decode_rows unmarshal recs s ≡ (
        decodable unmarshal recs,
        record s { malformed = s.malformed + undecodable unmarshal recs },
      )
  unfolding decode_rows
  decode_rows-eq [] s = ground arith
  decode_rows-eq (rec ∷ recs) s =
      ground (
        arith,
        decode_rows-eq recs s,
        decode_rows-eq recs (record s { malformed = s.malformed + 1 }),
      )

pub outcome_cases :
    (o : InsertOutcome)
    → (o ≡ taken) ⊎ ((e : GoString) × (o ≡ insert_error e)) ⊎ ((e : GoString) × (o ≡ panicked e))
outcome_cases taken = inl refl
outcome_cases (insert_error e) = inr (inl (e, refl))
outcome_cases (panicked e) = inr (inr (e, refl))

-- The dead-letter queue counts every record that it is given, as taken or as lost.
pub record Counts {Row : Type 0} (s after : Sinks Row) (n : ℕ) : Type 0 where
  pub counted : after.dlq_total + after.lost ≡ s.dlq_total + s.lost + n
  pub stored : after.stored ≡ s.stored
  pub malformed : after.malformed ≡ s.malformed

pub publish_all-Counts :
    {Row : Type 0} (broker : Broker) (d : Dlq) (recs : List KafkaRecord) (reason : GoString)
    (s : Sinks Row)
    → Counts s (publish_all broker (some d) recs reason s) (length recs)
unfolding publish_all
publish_all-Counts broker d [] reason s = record {
  counted = omega arith;
  stored = refl;
  malformed = refl;
}
publish_all-Counts broker d (r ∷ recs) reason s = record {
  counted = ground arith;
  stored = ground arith;
  malformed = ground arith;
}

module _ {Row : Type 0} (unmarshal : GoString → Option Row)
    (insert : GoString → List Row → InsertOutcome) (broker : Broker) (d : Dlq) (signal : GoString)
    (recs : List KafkaRecord) where
  module _ (s : Sinks Row) where
    abbrev pub handled : Sinks Row × Option GoString
    handled = insert_handler unmarshal insert broker (some d) signal recs s

    pub handled-eq :
        handled
        ≡ insert_decoded unmarshal insert broker
            (some d)
            signal
            recs
            (decodable unmarshal recs)
            (decoded unmarshal recs s)
    unfolding insert_handler
    handled-eq = rw (decode_rows-eq unmarshal recs s)
