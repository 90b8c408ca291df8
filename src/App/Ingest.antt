-- ===== src/App/Ingest.antt =====
-- `buildIngest` (internal/app/ingest.go): topics, clients, and the wiring of the signals.
use ingest.Prelude.{GoString, List, [], inl, inr, map, nat_key, none, some, text_key, ◌++◌, ◌∷◌}
use ingest.GoText.{GoText}
use ingest.Config.{Config, kafka_brokers, kafka_compression}
use ingest.Kafka.Topics.{dlq_topic, ingest_topic}
use ingest.Kafka.Signal.{signal_ingestion_stats, signal_llm_scores, signal_metric_series}
use ingest.Kafka.Client.{ClientConfig, ClientError, new_consumer_client, new_producer_client}
use ingest.App.{
  Event, Handle, Outside, closed, consumer_handle, ensured, opened, producer_handle,
  publisher_handle, stats_handle,
}
use ingest.App.Topics.{
  SignalWiring, ingest_topic_specs, insert_only, wire_logs, wire_metrics, wire_spans, wirings_of,
}

-- `core.NewInsertConsumer` over the consumer of a topic
pub record Runner : Type 0 where
  pub signal : GoString
  pub topic : GoString
  pub dlq_topic_name : GoString

-- `kafkainfra.NewLagPoller`
pub record Poller : Type 0 where
  pub group : GoString
  pub topic : GoString

-- `ingestBundle`; a module is named by its signal. `publishes` are the topics of the producers and
-- of the dead-letter queues that were made.
pub record IngestBundle : Type 0 where
  pub modules : List GoString
  pub consumer_topics : List GoString
  pub lag_pollers : List Poller
  pub consumers : List Runner
  pub closers : List Handle
  pub publishes : List GoString

-- what the function of a signal makes
pub record Wired : Type 0 where
  pub modules : List GoString
  pub started : List Handle
  pub publishes : List GoString

-- `wireSpans`, `wireLogs`, `wireMetrics` and `insertOnly`; the consumer is made for each alike
unfoldable pub wire_signal : GoString → GoString → SignalWiring → Wired
unfolding ingest_topic dlq_topic
wire_signal topic_prefix dlq_prefix w =
    let ingest = ingest_topic topic_prefix w.signal in
    let dlq = dlq_topic dlq_prefix w.signal in
    elim w.wire [
      | wire_spans ↦ record {
        modules = w.signal ∷ [];
        started = publisher_handle ∷ [];
        publishes = ingest ∷ ingest_topic topic_prefix signal_llm_scores ∷ dlq ∷ [];
      }
      | wire_logs ↦ record { modules = w.signal ∷ []; started = []; publishes = ingest ∷ dlq ∷ [] }
      | wire_metrics ↦ record {
        modules = w.signal ∷ [];
        started = [];
        publishes = ingest ∷ ingest_topic topic_prefix signal_metric_series ∷ dlq ∷ [];
      }
      | insert_only ↦ record { modules = []; started = []; publishes = dlq ∷ [] }
    ]

-- the events of opening or closing handles
abbrev pub each : (Handle → Event) → List Handle → List Event
each f hs = map f hs

-- `closeOnErr`
unfoldable pub close_on_err : IngestBundle → List Event
close_on_err b =
    each closed (map consumer_handle b.consumer_topics ++ stats_handle ∷ producer_handle ∷ [])

pub data Built : Type 0 where
  built : IngestBundle → Built
  ensure_failed : Built
  producer_failed : ClientError → Built
  consumer_failed : GoString → ClientError → Built

module _ (o : Outside) (topic_prefix dlq_prefix : GoString) (kcfg : ClientConfig) where
  -- one signal, added to the bundle
  unfoldable pub add_signal : SignalWiring → IngestBundle → IngestBundle
  unfolding wire_signal
  add_signal w b =
      let topic = ingest_topic topic_prefix w.signal in
      let wired = wire_signal topic_prefix dlq_prefix w in
      record {
        modules = b.modules ++ wired.modules;
        consumer_topics = b.consumer_topics ++ topic ∷ [];
        lag_pollers = b.lag_pollers ++ record { group = w.cfg.consumer_group; topic = topic } ∷ [];
        consumers =
            b.consumers
            ++ record {
              signal = w.signal;
              topic = topic;
              dlq_topic_name = dlq_topic dlq_prefix w.signal;
            }
              ∷ [];
        closers = b.closers ++ wired.started;
        publishes = b.publishes ++ wired.publishes;
      }

  -- the loop over the signals, with the trace so far
  unfoldable pub build_signals : List SignalWiring → IngestBundle → List Event → List Event × Built
  build_signals [] b trace = (trace, built b)
  build_signals (w ∷ ws) b trace =
      let topic = ingest_topic topic_prefix w.signal in
      elim (new_consumer_client o.consumer_client kcfg w.cfg.consumer_group topic) [
        | inr e ↦ (trace ++ close_on_err b, consumer_failed w.signal e)
        | inl _ ↦ build_signals ws (add_signal w b) (
            trace
            ++ each opened
                (consumer_handle topic ∷ (wire_signal topic_prefix dlq_prefix w).started))
      ]

-- the configuration of the clients
unfoldable pub client_config : GoText → Config → ClientConfig
unfolding kafka_compression
client_config text c = record {
  brokers = kafka_brokers c;
  linger_ms = c.kafka.linger_ms;
  batch_max_bytes = c.kafka.batch_max_bytes;
  fetch_max_bytes = c.kafka.fetch_max_bytes;
  fetch_max_partition_bytes = c.kafka.fetch_max_partition_bytes;
  compression = kafka_compression text c;
}

abbrev pub empty_bundle : GoString → IngestBundle
empty_bundle stats_topic = record {
  modules = [];
  consumer_topics = [];
  lag_pollers = [];
  consumers = [];
  closers = stats_handle ∷ [];
  publishes = stats_topic ∷ [];
}

-- `buildIngest`: the trace after it, and the result
unfoldable pub build_ingest : Outside → GoText → Config → List Event → List Event × Built
build_ingest o text c trace =
    let specs =
      ingest_topic_specs c.kafka.topic_prefix c.kafka.dlq_prefix c.kafka.dlq_retention_hours
        (wirings_of c) in
    let kcfg = client_config text c in
    let ready = trace ++ ensured specs ∷ [] in
    elim (o.ensure specs) [
      | some e ↦ (ready, ensure_failed)
      | none ↦ elim (new_producer_client o.producer_client kcfg) [
        | inr e ↦ (ready, producer_failed e)
        | inl _ ↦
            build_signals o c.kafka.topic_prefix c.kafka.dlq_prefix kcfg (wirings_of c)
              (empty_bundle (ingest_topic c.kafka.topic_prefix signal_ingestion_stats))
              (ready ++ each opened (producer_handle ∷ stats_handle ∷ []))
      ]
    ]
