-- ===== src/Core.antt =====
-- internal/ingestion/core and internal/infra/kafka/producer.go: records, the broker and ClickHouse
-- as the code sees them, publishing rows, the dead-letter queue, inserting rows.
pub mod Token
pub mod Insert
pub mod Publish
pub mod Async
use mathlib.Core.Option
use ingest.Prelude.{
  GoString, List, Option, [], length, lit, map, nat_key, none, some, text_key, ℕ, ◌++◌, ◌+◌, ◌∷◌,
}

pub record RecordHeader : Type 0 where
  pub key : GoString
  pub value : GoString

-- `kgo.Record`, as far as the sources read or set it
pub record KafkaRecord : Type 0 where
  pub topic : GoString
  pub key : GoString
  pub value : GoString
  pub headers : List RecordHeader
  pub partition : ℕ
  pub offset : ℕ
  -- nanoseconds; the zero time is 0
  pub timestamp : ℕ

-- The broker's answer to one produced record: an error text, or none.
abbrev pub Broker : Type 0
Broker = KafkaRecord → Option GoString

-- `ProduceSync(...).FirstErr()`
unfoldable pub first_err : Broker → List KafkaRecord → Option GoString
first_err broker [] = none
first_err broker (r ∷ rs) = elim (broker r) [ none ↦ first_err broker rs | some e ↦ some e ]

-- the records that the broker took
unfoldable pub delivered : Broker → List KafkaRecord → List KafkaRecord
delivered broker [] = []
delivered broker (r ∷ rs) = elim (broker r) [
  | none ↦ r ∷ delivered broker rs
  | some e ↦ delivered broker rs
]

-- `kafka.Producer.PublishBatch`: the log of the broker afterwards, and the error
unfoldable pub publish_batch :
    Broker → List KafkaRecord → List KafkaRecord → List KafkaRecord × Option GoString
unfolding first_err delivered
publish_batch broker log [] = (log, none)
publish_batch broker log records = (log ++ delivered broker records, first_err broker records)

-- `core.Producer`
pub record Producer (Row : Type 0) : Type 0 where
  pub topic : GoString
  pub key_func : Row → GoString

-- the record that `Publish` builds for a row and its encoding
unfoldable pub row_record : {Row : Type 0} → ℕ → Producer Row → Row → GoString → KafkaRecord
row_record now p r value = record {
  topic = p.topic;
  key = p.key_func r;
  value = value;
  headers = [];
  partition = 0;
  offset = 0;
  timestamp = now;
}

-- `marshal` stands for `proto.Marshal`, where `none` is an error.
module _ {Row : Type 0} (marshal : Row → Option GoString) (now : ℕ) (p : Producer Row) where
  -- the loop of `Publish` that marshals the rows; an error stops it
  unfoldable pub marshal_rows : List Row → Option (List KafkaRecord)
  unfolding row_record
  marshal_rows [] = some []
  marshal_rows (r ∷ rs) = elim (marshal r) [
    | none ↦ none
    | some value ↦ Option.map (◌∷◌ (row_record now p r value)) (marshal_rows rs)
  ]

pub data PublishResult : Type 0 where
  published : PublishResult
  marshal_error : PublishResult
  batch_error : GoString → PublishResult

module _ {Row : Type 0} (marshal : Row → Option GoString) (broker : Broker) (now : ℕ) where
  -- `Producer.Publish`: the log of the broker afterwards, and the result
  unfoldable pub publish :
      Producer Row → List KafkaRecord → List Row → List KafkaRecord × PublishResult
  unfolding marshal_rows publish_batch
  publish p log [] = (log, published)
  publish p log (r ∷ rs) = elim (marshal_rows marshal now p (r ∷ rs)) [
    | none ↦ (log, marshal_error)
    | some records ↦
        let (log', err) = publish_batch broker log records in
        elim err [ none ↦ (log', published) | some e ↦ (log', batch_error e) ]
  ]

-- `core.DLQ`
pub record Dlq : Type 0 where
  pub topic : GoString
  pub signal : GoString

-- the counters that the consumers keep, beside the log of the broker
pub record Sinks (Row : Type 0) : Type 0 where
  pub log : List KafkaRecord
  -- batches whose insert reported no error, each with its deduplication token
  pub stored : List (GoString × List Row)
  pub malformed : ℕ
  pub dlq_total : ℕ
  pub lost : ℕ

-- the record that `PublishAll` builds from a failed one
unfoldable pub dlq_record : Dlq → GoString → KafkaRecord → KafkaRecord
dlq_record d reason r = record {
  topic = d.topic;
  key = r.key;
  value = r.value;
  headers =
      record { key = lit "x-dlq-reason"; value = reason }
      ∷ record { key = lit "x-dlq-signal"; value = d.signal }
      ∷ [];
  partition = 0;
  offset = 0;
  timestamp = 0;
}

-- `DLQ.PublishAll`; `none` for the queue is a nil pointer
unfoldable pub publish_all :
    {Row : Type 0} → Broker → Option Dlq → List KafkaRecord → GoString → Sinks Row → Sinks Row
unfolding dlq_record publish_batch
publish_all broker none recs reason s = s
publish_all broker (some d) [] reason s = s
publish_all broker (some d) (r ∷ recs) reason s =
    let (log', err) = publish_batch broker s.log (map (dlq_record d reason) (r ∷ recs)) in
    elim err [
      | none ↦ record s { log = log'; dlq_total = s.dlq_total + length (r ∷ recs) }
      | some e ↦ record s { log = log'; lost = s.lost + length (r ∷ recs) }
    ]
