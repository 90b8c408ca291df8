-- ===== src/Tests/Core.antt =====
-- internal/ingestion/core on concrete inputs.
use ingest.Prelude.{
  GoString, List, Option, [], arith, false, if◌then◌else◌, lit, ltb, nat_key, none, refl, some,
  sort, text_key, ℕ, ◌+◌, ◌∷◌, ◌≡◌, ◌⊎◌,
}
use ingest.Prelude.Digits.{decimal, hex_fixed}
use ingest.GoMap.{insert, lookup}
use ingest.Core.{
  Broker, Dlq, KafkaRecord, Producer, Sinks, first_err, marshal_rows, publish, publish_batch,
  published,
}
use ingest.Core.Token.{dedup_token, fnv1a, fnv1a_offset, render_spans, spans_from, widen}
use ingest.Core.Token.Order.{dedup_token-SameOffsets}
use ingest.Core.Insert.{InsertOutcome, insert_error, insert_handler}
use ingest.Core.Insert.Settled.{Handled, insert_handler-Settled}
use ingest.Core.Async.{
  AsyncPublisher, Reach, act, close, enqueue, enqueues, new_async_publisher, next, send_or_drop,
  start,
}
use ingest.Core.Async.Safety.{IsSound}
use ingest.Core.Async.Live.{Progress, Reach-IsSound, Reach-drains, Reach-never_panics, work}

abbrev message : ℕ → ℕ → KafkaRecord
message p o = record {
  topic = lit "optikk.ingest.logs";
  key = [];
  value = o ∷ [];
  headers = [];
  partition = p;
  offset = o;
  timestamp = 0;
}

-- Twice the records 7 and 9 of partition 3, in two orders.
abbrev batch : List KafkaRecord
batch = message 3 7 ∷ message 3 9 ∷ []

abbrev redelivered : List KafkaRecord
redelivered = message 3 9 ∷ message 3 7 ∷ []

-- The digest of "logs|3:7-9".
token_text : render_spans (spans_from [] batch) (3 ∷ []) ≡ lit "|3:7-9"
unfolding spans_from widen lookup insert render_spans decimal lit
token_text = refl

token_run : dedup_token (lit "logs") [] ≡ hex_fixed 16 (fnv1a fnv1a_offset (lit "logs"))
unfolding dedup_token spans_from render_spans sort lit
token_run = refl

dedup_token-SameOffsets_example :
    dedup_token (lit "logs") batch ≡ dedup_token (lit "logs") redelivered
dedup_token-SameOffsets_example =
    dedup_token-SameOffsets (lit "logs") batch redelivered (λ p o. ground arith)

-- A row is its first byte; an empty message is malformed.
abbrev unmarshal : GoString → Option ℕ
unmarshal [] = none
unmarshal (b ∷ _) = some b

abbrev no_sinks : Sinks ℕ
no_sinks = record { log = []; stored = []; malformed = 0; dlq_total = 0; lost = 0 }

abbrev dead_letters : Dlq
dead_letters = record { topic = lit "optikk.dlq.logs"; signal = lit "logs" }

abbrev rejects : GoString → List ℕ → InsertOutcome
rejects token rows = insert_error (lit "send")

abbrev up : Broker
up r = none

abbrev down : Broker
down r = some (lit "down")

insert_handler-Settled_example :
    Handled unmarshal rejects down dead_letters
      (lit "logs")
      batch
      no_sinks
      (insert_handler unmarshal rejects down (some dead_letters) (lit "logs") batch no_sinks)
insert_handler-Settled_example =
    insert_handler-Settled unmarshal rejects down dead_letters (lit "logs") batch no_sinks

abbrev marshal : ℕ → Option GoString
marshal n = if ltb n 256 then some (n ∷ []) else none

abbrev byte_producer : Producer ℕ
byte_producer = record { topic = lit "t"; key_func = λ n. n ∷ [] }

publish_run : (publish marshal up 5 byte_producer [] (1 ∷ 2 ∷ [])).1 ≡ published
unfolding publish marshal_rows publish_batch first_err
publish_run = refl

abbrev fresh : AsyncPublisher ℕ
fresh = new_async_publisher 1 1

-- One batch queued.
abbrev queued : AsyncPublisher ℕ
queued = record {
  queue = (1 ∷ 2 ∷ []) ∷ [];
  queue_size = 1;
  queue_closed = false;
  closed = false;
  idle = 1;
  busy = [];
  published = 0;
  dropped = 0;
}

queued_reached : Reach 1 1 2 queued
unfolding act enqueue send_or_drop new_async_publisher
queued_reached = next start (enqueues (1 ∷ 2 ∷ [])) queued refl

Reach-IsSound_example : IsSound 1 1 2 queued
Reach-IsSound_example = Reach-IsSound queued_reached

Reach-never_panics_example :
    ((rows : List ℕ) → (b : AsyncPublisher ℕ) × (enqueue rows queued ≡ some b))
    × ((b : AsyncPublisher ℕ) × (close queued ≡ some b))
Reach-never_panics_example = Reach-never_panics queued_reached

Reach-drains_example :
    Progress queued ⊎ ((work queued ≡ 0) × (queued.published + queued.dropped ≡ 2))
Reach-drains_example = Reach-drains (omega arith) queued_reached
