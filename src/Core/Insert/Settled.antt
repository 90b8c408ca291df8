-- ===== src/Core/Insert/Settled.antt =====
-- How a polled batch is settled: where each of its records ends up, on every path of the handler.
use ingest.Prelude.{
  GoString, List, List-cases, Option, Option-cases, [], ap, arith, inl, inr, length, lit, map,
  nat_key, none, refl, some, text_key, ℕ, ◌++◌, ◌+◌, ◌∷◌, ◌≡◌, ◌≢◌, ◌⊎◌,
}
use ingest.Core.{Broker, Dlq, KafkaRecord, Sinks, delivered, dlq_record, first_err, publish_all}
use ingest.Core.Token.{dedup_token}
use ingest.Core.Insert.{
  InsertOutcome, insert_decoded, insert_error, insert_handler, panicked, taken,
}
use ingest.Core.Insert.Account.{
  decodable, decoded, decoded_length, handled-eq, outcome_cases, undecodable,
}

-- The letters are copies of the records, one each and in order: to the topic of the queue, under the
-- key and with the value of the record, and with the reason and the signal as headers.
abbrev pub AreLetters : Dlq → GoString → List KafkaRecord → List KafkaRecord → Type 0
AreLetters d reason [] [] = Unit
AreLetters d reason [] (l ∷ ls) = ⊥
AreLetters d reason (r ∷ rs) [] = ⊥
AreLetters d reason (r ∷ rs) (l ∷ ls) =
    (l.topic ≡ d.topic)
    × (l.key ≡ r.key)
    × (l.value ≡ r.value)
    × (l.headers
        ≡ record { key = lit "x-dlq-reason"; value = reason }
          ∷ record { key = lit "x-dlq-signal"; value = d.signal }
          ∷ [])
    × AreLetters d reason rs ls

-- The broker takes every one of the records.
abbrev pub TakesAll : Broker → List KafkaRecord → Type 0
TakesAll broker [] = Unit
TakesAll broker (l ∷ ls) = (broker l ≡ none) × TakesAll broker ls

-- The broker refuses one of the records.
abbrev pub RefusesOne : Broker → List KafkaRecord → Type 0
RefusesOne broker [] = ⊥
RefusesOne broker (l ∷ ls) = ((e : GoString) × (broker l ≡ some e)) ⊎ RefusesOne broker ls

-- What the broker and the counters hold after the batch was given to the dead-letter queue: `n`
-- records are counted in one of two ways.
pub record IsDeadLettered {Row : Type 0} (broker : Broker) (d : Dlq) (recs : List KafkaRecord)
    (reason : GoString) (s after : Sinks Row) : Type 0 where
  pub letters : List KafkaRecord
  pub copies : AreLetters d reason recs letters
  pub stored : after.stored ≡ s.stored
  pub log : after.log ≡ s.log ++ delivered broker letters
  pub counted :
      (TakesAll broker letters
        × (after.dlq_total ≡ s.dlq_total + length recs)
        × (after.lost ≡ s.lost))
      ⊎ (RefusesOne broker letters
          × (after.dlq_total ≡ s.dlq_total)
          × (after.lost ≡ s.lost + length recs))

-- The batch was handed to ClickHouse and nothing was given to the dead-letter queue.
pub record IsHandedOver {Row : Type 0} (token : GoString) (rows : List Row) (s after : Sinks Row)
    : Type 0 where
  pub stored : after.stored ≡ s.stored ++ (token, rows) ∷ []
  pub log : after.log ≡ s.log
  pub dlq_total : after.dlq_total ≡ s.dlq_total
  pub lost : after.lost ≡ s.lost

-- Nothing of the batch went anywhere.
pub record IsKept {Row : Type 0} (s after : Sinks Row) : Type 0 where
  pub stored : after.stored ≡ s.stored
  pub log : after.log ≡ s.log
  pub dlq_total : after.dlq_total ≡ s.dlq_total
  pub lost : after.lost ≡ s.lost

module _ (broker : Broker) where
  first_err-TakesAll : (ls : List KafkaRecord) → first_err broker ls ≡ none → TakesAll broker ls
  unfolding first_err
  first_err-TakesAll [] h = tt
  first_err-TakesAll (l ∷ ls) h = elim (Option-cases (broker l)) [
    | inl e ↦ (e, first_err-TakesAll ls (ground arith))
    | inr (x, e) ↦ absurd (ground arith)
  ]

  first_err-RefusesOne :
      (ls : List KafkaRecord) {x : GoString} → first_err broker ls ≡ some x → RefusesOne broker ls
  unfolding first_err
  first_err-RefusesOne [] {x} h = cc
  first_err-RefusesOne (l ∷ ls) {x} h = elim (Option-cases (broker l)) [
    | inl e ↦ inr (first_err-RefusesOne ls {x = x} (ground arith))
    | inr (y, e) ↦ inl (y, e)
  ]

dlq_record-AreLetters :
    (d : Dlq) (reason : GoString) (recs : List KafkaRecord)
    → AreLetters d reason recs (map (dlq_record d reason) recs)
unfolding dlq_record
dlq_record-AreLetters d reason [] = tt
dlq_record-AreLetters d reason (r ∷ rs) =
    (refl, refl, refl, refl, dlq_record-AreLetters d reason rs)

publish_all-IsDeadLettered :
    {Row : Type 0} (broker : Broker) (d : Dlq) (r : KafkaRecord) (recs : List KafkaRecord)
    (reason : GoString) (s : Sinks Row) (n : ℕ)
    → let after = publish_all broker (some d) (r ∷ recs) reason (record s { malformed = n }) in
      (after.malformed ≡ n) × IsDeadLettered broker d (r ∷ recs) reason s after
unfolding publish_all
publish_all-IsDeadLettered broker d r recs reason s n =
    let letters = map (dlq_record d reason) (r ∷ recs) in
    let copies = dlq_record-AreLetters d reason (r ∷ recs) in
    elim (Option-cases (first_err broker letters)) [
      | inl e ↦ (
        rw (e, publish_all) refl,
        record {
          letters = letters;
          copies = copies;
          stored = rw (e, publish_all) refl;
          log = rw (e, publish_all) refl;
          counted = rw (e, publish_all) (inl (first_err-TakesAll broker letters e, refl, refl));
        },
      )
      | inr (x, e) ↦ (
        rw (e, publish_all) refl,
        record {
          letters = letters;
          copies = copies;
          stored = rw (e, publish_all) refl;
          log = rw (e, publish_all) refl;
          counted = rw (e, publish_all) (inr (first_err-RefusesOne broker letters e, refl, refl));
        },
      )
    ]

-- Where the records end up, by what the call of the writer came to.
unfoldable pub Settled :
    {Row : Type 0}
    → Broker
    → Dlq
    → GoString
    → List KafkaRecord
    → List Row
    → Sinks Row
    → Sinks Row
    → InsertOutcome
    → Type 0
Settled broker d token recs rows s after taken = IsHandedOver token rows s after
Settled broker d token recs rows s after (insert_error e) = IsDeadLettered broker d recs e s after
Settled broker d token recs rows s after (panicked e) =
    IsDeadLettered broker d recs (lit "worker panic: " ++ e) s after

module _ {Row : Type 0} (unmarshal : GoString → Option Row)
    (insert : GoString → List Row → InsertOutcome) (broker : Broker) (d : Dlq)
    (signal : GoString) where
  insert_decoded-Settled :
      (recs : List KafkaRecord) (rows : List Row) (s : Sinks Row) (n : ℕ)
      → recs ≢ []
      → rows ≢ []
      → let start = record s { malformed = n } in
        let after = insert_decoded unmarshal insert broker (some d) signal recs rows start in
        (after.1 ≡ none)
        × (after.0.malformed ≡ n)
        × Settled broker d
            (dedup_token signal recs)
            recs
            rows
            s
            after.0
            (insert (dedup_token signal recs) rows)
  unfolding Settled insert_decoded
  insert_decoded-Settled [] rows s n some_recs some_rows = absurd (some_recs refl)
  insert_decoded-Settled (r ∷ recs) [] s n some_recs some_rows = absurd (some_rows refl)
  insert_decoded-Settled (r ∷ recs) (row ∷ rest) s n some_recs some_rows =
      elim (outcome_cases (insert (dedup_token signal (r ∷ recs)) (row ∷ rest))) [
        | inl e ↦
            rw (e, insert_decoded)
              (refl, refl, record { stored = refl; log = refl; dlq_total = refl; lost = refl })
        | inr (inl (x, e)) ↦
            rw (e, insert_decoded)
              (let (kept, dead) = publish_all-IsDeadLettered broker d r recs x s n in
                (refl, kept, dead))
        | inr (inr (x, e)) ↦
            rw (e, insert_decoded)
              (let (kept, dead) =
                  publish_all-IsDeadLettered broker d r recs (lit "worker panic: " ++ x) s n in
                (refl, kept, dead))
      ]

  module _ (recs : List KafkaRecord) (s : Sinks Row) where
    -- what the handler leaves behind, and the error that it returns
    abbrev pub Handled : Sinks Row × Option GoString → Type 0
    Handled (after, err) =
        (err ≡ none)
        × (after.malformed + length (decodable unmarshal recs) ≡ s.malformed + length recs)
        × (((decodable unmarshal recs ≡ []) × IsKept s after)
            ⊎ ((decodable unmarshal recs ≢ [])
                × Settled broker d (dedup_token signal recs) recs (decodable unmarshal recs) s after
                    (insert (dedup_token signal recs) (decodable unmarshal recs))))

    none_decode :
        decodable unmarshal recs ≡ []
        → Handled (
            insert_decoded unmarshal insert broker
              (some d)
              signal
              recs
              (decodable unmarshal recs)
              (decoded unmarshal recs s))
    unfolding insert_decoded
    none_decode e =
        rw (e, insert_decoded)
          (
            refl,
            omega (arith, decoded_length unmarshal recs, ap length e),
            inl (refl, record { stored = refl; log = refl; dlq_total = refl; lost = refl }),
          )

    -- The handler returns no error on any path, and counts as malformed exactly the records that do
    -- not decode. If none decodes, nothing else changes. Otherwise the rows that decode, in order,
    -- are one batch for the writer under the token of all the records; if the writer takes it,
    -- the batch is stored as that, and nothing is sent to the dead-letter topic. If the writer fails
    -- or panics, nothing is stored by the handler, and a copy of each record of the batch, malformed
    -- or not, is sent to the dead-letter topic, with the error as the reason; the records are all
    -- counted there if the broker takes all copies, and all counted as lost if it refuses one.
    pub insert_handler-Settled :
        Handled (insert_handler unmarshal insert broker (some d) signal recs s)
    insert_handler-Settled =
        rw (handled-eq unmarshal insert broker d signal recs s)
          (elim (List-cases (decodable unmarshal recs)) [
            | inl e ↦ none_decode e
            | inr (row, rest, e) ↦
                let some_rows : decodable unmarshal recs ≢ [] = λ z. cc in
                let (ok, same, settled) =
                  insert_decoded-Settled recs (decodable unmarshal recs) s
                    (s.malformed + undecodable unmarshal recs)
                    (λ z. some_rows (ap (decodable unmarshal) z)) some_rows in
                (ok, omega (arith, same, decoded_length unmarshal recs), inr (some_rows, settled))
          ])
