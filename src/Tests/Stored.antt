-- ===== src/Tests/Stored.antt =====
-- From the producer to the table, on concrete inputs.
use ingest.Prelude.{
  GoString, List, Option, [], arith, lit, nat_key, none, refl, some, text_key, ℕ, ◌++◌, ◌∷◌, ◌≡◌,
}
use ingest.Columns.{Slots, assign, map_row, uint64_cell}
use ingest.Core.{
  Broker, Dlq, KafkaRecord, Producer, Sinks, delivered, first_err, marshal_rows, publish,
  publish_batch, published, row_record,
}
use ingest.Writer.{ClickHouseWriter}
use ingest.Writer.Atomic.{Fills}
use ingest.Writer.Consumer.{Delivered, handle_batch-Delivered}
use ingest.Tests.Samples.{all_rows, server, server-IsClickHouse}
use ingest.Writer.Stored.{IsCodec, Stored, publish-Stored}

-- A row is a number, which is its own encoding and the one column of its table.
abbrev marshal : ℕ → Option GoString
marshal n = some (n ∷ [])

abbrev unmarshal : GoString → Option ℕ
unmarshal [] = none
unmarshal (n ∷ _) = some n

marshal-IsCodec : IsCodec marshal unmarshal
marshal-IsCodec r v e = cc

abbrev writer : ClickHouseWriter ℕ ℕ
writer = record {
  query = lit "INSERT INTO numbers (n)";
  col_count = 1;
  row_mapper = λ n. (0, uint64_cell n) ∷ [];
}

abbrev image : ℕ → Slots ℕ
image n = some (uint64_cell n) ∷ []

writer-Fills : Fills writer.col_count writer.row_mapper image
unfolding map_row assign
writer-Fills r [] h = absurd (omega arith)
writer-Fills r (x ∷ []) h = (refl, refl)
writer-Fills r (x ∷ y ∷ dst) h = absurd (omega arith)

abbrev producer : Producer ℕ
producer = record { topic = lit "t"; key_func = λ n. n ∷ [] }

abbrev up : Broker
up r = none

abbrev dead_letters : Dlq
dead_letters = record { topic = lit "dlq.t"; signal = lit "t" }

abbrev two : List ℕ
two = 1 ∷ 2 ∷ []

abbrev message : ℕ → ℕ → KafkaRecord
message n offset = record {
  topic = lit "t";
  key = n ∷ [];
  value = n ∷ [];
  headers = [];
  partition = 0;
  offset = offset;
  timestamp = 5;
}

abbrev sent : List KafkaRecord
sent = message 1 0 ∷ message 2 0 ∷ []

abbrev polled : List KafkaRecord
polled = message 1 17 ∷ message 2 18 ∷ []

abbrev no_sinks : Sinks ℕ
no_sinks = record { log = []; stored = []; malformed = 0; dlq_total = 0; lost = 0 }

two_published : publish marshal up 5 producer [] two ≡ ([] ++ sent, published)
unfolding publish marshal_rows row_record publish_batch first_err delivered
two_published = refl

publish-Stored_example :
    Stored server all_rows
      (λ s. s)
      (λ b. b)
      writer
      image
      marshal
      unmarshal
      up
      dead_letters
      (lit "t")
      5
      producer
      two
      polled
      no_sinks
      []
publish-Stored_example =
    publish-Stored server all_rows (λ s. s) (λ b. b) writer image marshal unmarshal up dead_letters
      (lit "t") 5 producer two [] sent polled no_sinks [] marshal-IsCodec server-IsClickHouse
      writer-Fills (λ e. cc) two_published refl

handle_batch-Delivered_example :
    Delivered server all_rows
      (λ s. s)
      (λ b. b)
      writer
      image
      unmarshal
      up
      dead_letters
      (lit "t")
      polled
      no_sinks
      []
handle_batch-Delivered_example =
    handle_batch-Delivered server all_rows (λ s. s) (λ b. b) writer image unmarshal up dead_letters
      (lit "t") polled no_sinks [] server-IsClickHouse writer-Fills (λ e. cc)
