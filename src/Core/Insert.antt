-- ===== src/Core/Insert.antt =====
-- `NewInsertHandler` of internal/ingestion/core/insert_handler.go: decode a polled batch, insert it,
-- and send what cannot be inserted to the dead-letter queue.
pub mod Account
pub mod Outcome
pub mod Settled
use ingest.Prelude.{GoString, List, Option, [], lit, nat_key, none, some, text_key, ◌++◌, ◌+◌, ◌∷◌}
use ingest.Core.{Broker, Dlq, KafkaRecord, Sinks, publish_all}
use ingest.Core.Token.{dedup_token}

-- What a call of `Writer.Insert` comes to: the batch is taken, an error, or a panic.
pub data InsertOutcome : Type 0 where
  taken : InsertOutcome
  insert_error : GoString → InsertOutcome
  panicked : GoString → InsertOutcome

-- `unmarshal` stands for `proto.Unmarshal` into a new row, where `none` is an error.
module _ {Row : Type 0} (unmarshal : GoString → Option Row) where
  -- the loop that decodes the records and skips the malformed ones
  unfoldable pub decode_rows : List KafkaRecord → Sinks Row → List Row × Sinks Row
  decode_rows [] s = ([], s)
  decode_rows (rec ∷ recs) s = elim (unmarshal rec.value) [
    | none ↦ decode_rows recs (record s { malformed = s.malformed + 1 })
    | some row ↦ let (rows, s') = decode_rows recs s in (row ∷ rows, s')
  ]

-- `insert` is the writer, given the deduplication token of the context and the rows.
module _ {Row : Type 0} (unmarshal : GoString → Option Row)
    (insert : GoString → List Row → InsertOutcome) (broker : Broker) (dlq : Option Dlq)
    (signal : GoString) where
  -- from the test `len(rows) == 0` on: the call of the writer, its error path, and the deferred
  -- recovery from a panic
  unfoldable pub insert_decoded :
      List KafkaRecord → List Row → Sinks Row → Sinks Row × Option GoString
  unfolding publish_all
  insert_decoded recs [] s = (s, none)
  insert_decoded recs (row ∷ rest) s = elim (insert (dedup_token signal recs) (row ∷ rest)) [
    | taken ↦ (record s { stored = s.stored ++ (dedup_token signal recs, row ∷ rest) ∷ [] }, none)
    | insert_error e ↦ (publish_all broker dlq recs e s, none)
    | panicked e ↦ (publish_all broker dlq recs (lit "worker panic: " ++ e) s, none)
  ]

  -- the handler: the counters and stores afterwards, and the error that it returns
  unfoldable pub insert_handler : List KafkaRecord → Sinks Row → Sinks Row × Option GoString
  unfolding decode_rows insert_decoded
  insert_handler recs s =
      let (rows, s') = decode_rows unmarshal recs s in insert_decoded recs rows s'
