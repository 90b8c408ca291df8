-- ===== src/Writer/Consumer.antt =====
-- The insert handler over the writer, as internal/ingestion/core/consumer.go puts them together.
use ingest.Prelude.{
  GoString, List, Option, [], ap, inl, inr, lit, map, nat_key, refl, some, text_key, ◌++◌, ◌+◌, ◌∷◌,
  ◌≡◌, ◌≢◌, ◌⊎◌,
}
use ingest.Columns.{Slots}
use ingest.Core.{Broker, Dlq, KafkaRecord, Sinks}
use ingest.Core.Token.{dedup_token}
use ingest.Core.Insert.{InsertOutcome, decode_rows, insert_error, insert_handler, panicked, taken}
use ingest.Core.Insert.Account.{decodable, decode_rows-eq, undecodable}
use ingest.Core.Insert.Outcome.{IsRefused, insert_handler-IsRefused, insert_handler-taken}
use ingest.Writer.{
  ClickHouse, ClickHouseWriter, Inserted, append_failed, insert_rows, inserted, mapper_panicked,
  prepare_failed, send_failed,
}
use ingest.Writer.Atomic.{Block, Fills, Grows, IsClickHouse, IsIn, Part, insert_rows_refines}

-- what the handler sees of `Insert`: the errors with their wrapping, or a panic, the text of which is
-- shortened
unfoldable pub outcome_of : Inserted → InsertOutcome
outcome_of inserted = taken
outcome_of (prepare_failed e) = insert_error (lit "core writer: prepare: " ++ e)
outcome_of (append_failed e) = insert_error (lit "core writer: append: " ++ e)
outcome_of (send_failed e) = insert_error (lit "core writer: send: " ++ e)
outcome_of mapper_panicked = panicked (lit "runtime error: index out of range")

outcome_of-taken : (r : Inserted) → r ≢ inserted → outcome_of r ≢ taken
unfolding outcome_of
outcome_of-taken inserted h e = h refl
outcome_of-taken (prepare_failed x) h e = cc
outcome_of-taken (append_failed x) h e = cc
outcome_of-taken (send_failed x) h e = cc
outcome_of-taken mapper_panicked h e = cc

module _ {F B W Row : Type 0} (ch : ClickHouse F B W) (w : ClickHouseWriter F Row)
    (unmarshal : GoString → Option Row) (broker : Broker) (d : Dlq) (signal : GoString) where
  -- the handler of `NewInsertConsumer` on a batch: the counters and stores of the handler, and the
  -- server
  unfoldable pub handle_batch : List KafkaRecord → Sinks Row → W → Sinks Row × W
  unfolding insert_handler insert_rows outcome_of
  handle_batch recs s server = (
    (insert_handler unmarshal (λ token rows. outcome_of (insert_rows ch w token rows server).1)
        broker (some d) signal recs s).0,
    (insert_rows ch w (dedup_token signal recs) (decode_rows unmarshal recs s).0 server).0,
  )

module _ {F B W Row : Type 0} (ch : ClickHouse F B W) (partition : Slots F → GoString)
    (taken_parts : W → List (Part F)) (collected : B → Block F) (w : ClickHouseWriter F Row)
    (image : Row → Slots F) (unmarshal : GoString → Option Row) (broker : Broker) (d : Dlq)
    (signal : GoString) where
  -- What a batch with rows leaves behind, in the handler and in the server.
  abbrev pub Delivered : List KafkaRecord → Sinks Row → W → Type 0
  Delivered recs s server =
      let rows = decodable unmarshal recs in
      let (s', server') = handle_batch ch w unmarshal broker d signal recs s server in
      let block : Block F = record {
        token = dedup_token signal recs;
        query = w.query;
        rows = map image rows;
      } in
      Grows partition block (taken_parts server) (taken_parts server')
      × (((s' ≡ record s {
        stored = s.stored ++ (dedup_token signal recs, rows) ∷ [];
        malformed = s.malformed + undecodable unmarshal recs;
      })
            × IsIn partition block (taken_parts server'))
          ⊎ ((reason : GoString) × IsRefused broker d recs s s' reason))

  -- A batch, from the consumer to the table. For a server with partitions and a deduplication window
  -- that keeps its promises, a mapper whose slots depend on the row alone, and a batch of which a
  -- record decodes: the block has the images of the rows that decode, in order, under the token of
  -- the batch, and what the server has taken more are whole parts of it, none twice. Either the
  -- handler counts the rows as stored, and for the partition of each image the server has a part
  -- under the token, from this delivery or an earlier one; or every record of the batch has been
  -- sent to the dead-letter topic, or is counted as lost.
  pub handle_batch-Delivered :
      (recs : List KafkaRecord) (s : Sinks Row) (server : W)
      → IsClickHouse ch partition taken_parts collected
      → Fills w.col_count w.row_mapper image
      → decodable unmarshal recs ≢ []
      → Delivered recs s server
  unfolding handle_batch
  handle_batch-Delivered recs s server c f ne =
      let rows = decodable unmarshal recs in
      let insert : GoString → List Row → InsertOutcome =
        λ token rows. outcome_of (insert_rows ch w token rows server).1 in
      let same : (decode_rows unmarshal recs s).0 ≡ rows =
        ap (λ r. r.0) (decode_rows-eq unmarshal recs s) in
      let (grows, result) =
        insert_rows_refines ch partition taken_parts collected w image (dedup_token signal recs)
          rows server c f ne in
      (
        rw same grows,
        elim result [
          | inl (ok, all) ↦ inl (
            insert_handler-taken unmarshal insert broker d signal recs s ne (ap outcome_of ok),
            rw same all,
          )
          | inr (bad, _) ↦ inr (
              insert_handler-IsRefused unmarshal insert broker d signal recs s ne
                (outcome_of-taken _ bad))
        ],
      )
