-- ===== src/Core/Insert/Outcome.antt =====
-- What a batch leaves behind, for each way in which the insert can go.
use mathlib.Core.List.{append-nil}
use ingest.Prelude.{
  GoString, List, Option, [], ap, arith, inl, inr, length, lit, map, nat_key, refl, some, sym,
  text_key, ◌++◌, ◌+◌, ◌∙◌, ◌∷◌, ◌≡◌, ◌≢◌,
}
use ingest.Core.{Broker, Dlq, KafkaRecord, Sinks, delivered, dlq_record, first_err, publish_all}
use ingest.Core.Token.{dedup_token}
use ingest.Core.Insert.{InsertOutcome, insert_decoded, insert_handler, taken}
use ingest.Core.Insert.Account.{
  decodable, decoded, handled-eq, outcome_cases, publish_all-Counts, undecodable,
}

module _ {Row : Type 0} (broker : Broker) (d : Dlq) (reason : GoString) (s : Sinks Row) where
  log-publish_all :
      (recs : List KafkaRecord)
      → (publish_all broker (some d) recs reason s).log
        ≡ s.log ++ delivered broker (map (dlq_record d reason) recs)
  unfolding publish_all
  log-publish_all [] = sym (append-nil s.log)
  log-publish_all (r ∷ recs) = ground arith

  lost-publish_all :
      (recs : List KafkaRecord) {e : GoString}
      → first_err broker (map (dlq_record d reason) recs) ≡ some e
      → (publish_all broker (some d) recs reason s).lost ≡ s.lost + length recs
  unfolding publish_all
  lost-publish_all [] h = cc
  lost-publish_all (r ∷ recs) h = ground arith

-- What a failed insert leaves behind: the records have gone to the dead-letter queue, as far as the
-- broker took them, and are counted there or as lost.
pub record IsRefused {Row : Type 0} (broker : Broker) (d : Dlq) (recs : List KafkaRecord)
    (s after : Sinks Row) (reason : GoString) : Type 0 where
  pub stored : after.stored ≡ s.stored
  pub log : after.log ≡ s.log ++ delivered broker (map (dlq_record d reason) recs)
  pub counted : after.dlq_total + after.lost ≡ s.dlq_total + s.lost + length recs
  pub lost :
      (e : GoString)
      → first_err broker (map (dlq_record d reason) recs) ≡ some e
      → after.lost ≡ s.lost + length recs

module _ {Row : Type 0} (unmarshal : GoString → Option Row)
    (insert : GoString → List Row → InsertOutcome) (broker : Broker) (d : Dlq) (signal : GoString)
    (recs : List KafkaRecord) where
  insert_decoded-taken :
      (rows : List Row) (s : Sinks Row)
      → rows ≢ []
      → insert (dedup_token signal recs) rows ≡ taken
      → (insert_decoded unmarshal insert broker (some d) signal recs rows s).0
        ≡ record s { stored = s.stored ++ (dedup_token signal recs, rows) ∷ [] }
  unfolding insert_decoded
  insert_decoded-taken [] s n h = absurd (n refl)
  insert_decoded-taken (row ∷ rest) s n h = rw (h, insert_decoded)

  publish_all-IsRefused :
      (reason : GoString) (s : Sinks Row)
      → IsRefused broker d recs s (publish_all broker (some d) recs reason s) reason
  publish_all-IsRefused reason s =
      let c = publish_all-Counts broker d recs reason s in
      record {
        stored = c.stored;
        log = log-publish_all broker d reason s recs;
        counted = c.counted;
        lost = λ e h. lost-publish_all broker d reason s recs h;
      }

  insert_decoded-IsRefused :
      (rows : List Row) (s : Sinks Row)
      → rows ≢ []
      → insert (dedup_token signal recs) rows ≢ taken
      → (reason : GoString) × IsRefused broker d recs s
          (insert_decoded unmarshal insert broker (some d) signal recs rows s).0
          reason
  unfolding insert_decoded
  insert_decoded-IsRefused [] s n h = absurd (n refl)
  insert_decoded-IsRefused (row ∷ rest) s n h =
      elim (outcome_cases (insert (dedup_token signal recs) (row ∷ rest))) [
        | inl e ↦ absurd (h e)
        | inr (inl (m, e)) ↦ (m, rw (e, insert_decoded) (publish_all-IsRefused m s))
        | inr (inr (m, e)) ↦ (
          lit "worker panic: " ++ m,
          rw (e, insert_decoded) (publish_all-IsRefused (lit "worker panic: " ++ m) s),
        )
      ]

  module _ (s : Sinks Row) (some_rows : decodable unmarshal recs ≢ []) where
    -- If ClickHouse takes the batch, then exactly the rows that decode are stored, in order, in one
    -- batch under the token of all the records; nothing goes to the broker, nothing is lost, and
    -- the records that do not decode are counted as malformed.
    pub insert_handler-taken :
        insert (dedup_token signal recs) (decodable unmarshal recs) ≡ taken
        → (insert_handler unmarshal insert broker (some d) signal recs s).0 ≡ record s {
          stored = s.stored ++ (dedup_token signal recs, decodable unmarshal recs) ∷ [];
          malformed = s.malformed + undecodable unmarshal recs;
        }
    insert_handler-taken h =
        ap (λ r. r.0) (handled-eq unmarshal insert broker d signal recs s)
        ∙ insert_decoded-taken (decodable unmarshal recs) (decoded unmarshal recs s) some_rows h

    -- If the insert fails or panics, then nothing is stored; every record of the batch, malformed or
    -- not, has been sent to the dead-letter topic, under its key and with its value, and is counted
    -- there, or as lost if the broker refused one of them.
    pub insert_handler-IsRefused :
        insert (dedup_token signal recs) (decodable unmarshal recs) ≢ taken
        → (reason : GoString) × IsRefused broker d recs s
            (insert_handler unmarshal insert broker (some d) signal recs s).0
            reason
    insert_handler-IsRefused h =
        let (reason, r) =
          insert_decoded-IsRefused (decodable unmarshal recs) (decoded unmarshal recs s) some_rows
            h in
        (
          reason,
          rw (ap (λ r. r.0) (handled-eq unmarshal insert broker d signal recs s))
              (record { stored = r.stored; log = r.log; counted = r.counted; lost = r.lost }),
        )
