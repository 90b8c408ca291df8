-- ===== src/Config/Defaults.antt =====
-- `setDefaults` of internal/config/config.go.
use ingest.Prelude.{GoString, List, [], lit, nat_key, text_key, ℕ, ◌*◌, ◌++◌, ◌^◌, ◌∷◌}
use ingest.Prelude.Int.{pos, ℤ}
use ingest.Config.{signal_defaults}

-- A default: a text or an integer.
pub data Setting : Type 0 where
  text_setting : GoString → Setting
  int_setting : ℤ → Setting

abbrev number : ℕ → Setting
number n = int_setting (pos n)

-- the body of the loop over the signals
unfoldable pub signal_settings : GoString → List (GoString × Setting)
unfolding signal_defaults
signal_settings signal =
    let def = signal_defaults signal in
    let prefix = lit "ingestion." ++ (signal ++ lit ".") in
    (prefix ++ lit "partitions", int_setting def.partitions)
    ∷ (prefix ++ lit "replicas", int_setting def.replicas)
    ∷ (prefix ++ lit "retention_hours", int_setting def.retention_hours)
    ∷ (prefix ++ lit "consumer_group", text_setting def.consumer_group)
    ∷ []

abbrev default_signals : List GoString
default_signals =
    lit "spans"
    ∷ lit "logs"
    ∷ lit "metrics"
    ∷ lit "metric_series"
    ∷ lit "ingestion_stats"
    ∷ lit "llm_scores"
    ∷ []

unfoldable pub all_signal_settings : List GoString → List (GoString × Setting)
unfolding signal_settings
all_signal_settings [] = []
all_signal_settings (signal ∷ signals) = signal_settings signal ++ all_signal_settings signals

-- the keys and values that are set, in order
unfoldable pub set_defaults : List (GoString × Setting)
unfolding all_signal_settings
set_defaults =
    ((lit "server.port", text_setting [])
      ∷ (lit "mysql.host", text_setting [])
      ∷ (lit "mysql.port", text_setting [])
      ∷ (lit "mysql.database", text_setting [])
      ∷ (lit "mysql.user", text_setting [])
      ∷ (lit "mysql.password", text_setting [])
      ∷ (lit "mysql.max_open_conns", number 0)
      ∷ (lit "mysql.max_idle_conns", number 0)
      ∷ (lit "clickhouse.host", text_setting [])
      ∷ (lit "clickhouse.port", text_setting [])
      ∷ (lit "clickhouse.database", text_setting [])
      ∷ (lit "clickhouse.user", text_setting [])
      ∷ (lit "clickhouse.password", text_setting [])
      ∷ (lit "clickhouse.max_open_conns", number 0)
      ∷ (lit "clickhouse.max_idle_conns", number 0)
      ∷ (lit "kafka.broker_list", text_setting [])
      ∷ (lit "kafka.topic_prefix", text_setting (lit "optikk.ingest"))
      ∷ (lit "kafka.dlq_prefix", text_setting (lit "optikk.dlq"))
      ∷ (lit "kafka.dlq_retention_hours", number (7 * 24))
      ∷ (lit "kafka.compression", text_setting (lit "zstd"))
      ∷ (lit "kafka.linger_ms", number 20)
      ∷ (lit "kafka.batch_max_bytes", number (2 ^ 20))
      ∷ (lit "kafka.fetch_max_bytes", number (8 * 2 ^ 20))
      ∷ (lit "kafka.fetch_max_partition_bytes", number (2 ^ 20))
      ∷ (lit "kafka.consumer_max_poll_records", number 5000)
      ∷ (lit "kafka.consumer_insert_workers", number 1)
      ∷ (lit "otlp.grpc_port", text_setting [])
      ∷ (lit "otlp.http_port", text_setting [])
      ∷ (lit "otlp.grpc_max_concurrent_streams", number 10000)
      ∷ (lit "otlp.grpc_max_recv_msg_size", number (16 * 1024 * 1024))
      ∷ [])
    ++ (all_signal_settings default_signals
        ++ ((lit "ingestion.side_publish.queue_size", number 4096)
            ∷ (lit "ingestion.side_publish.workers", number 2)
            ∷ (lit "ingestion.series_dedup_size", number 500000)
            ∷ (lit "ingestion.series_republish_interval_seconds", number 900)
            ∷ (lit "ingestion.api_key_cache_ttl_seconds", number 30)
            ∷ (lit "ingestion.api_key_cache_size", number 50000)
            ∷ (lit "ingestion.stats_flush_interval_seconds", number 300)
            ∷ []))
