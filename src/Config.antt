-- ===== src/Config.antt =====
-- internal/config: the settings (config.go and the files beside it), their validation, and what the
-- other parts read of them. Reading the file is in Config/File.
pub mod Databases
pub mod Defaults
pub mod Brokers
pub mod Path
pub mod File
use ingest.Prelude.{
  Bool, GoString, List, Option, [], if◌then◌else◌, lit, ltb, nat_key, none, some, text_key, ℕ, ◌++◌,
  ◌==◌, ◌∷◌,
}
use ingest.Prelude.Int.{negsuc, pos, wrap_int, ℤ, ◌*ℤ◌}
use ingest.GoText.{GoText}
use ingest.GoStrings.{split_byte, trim_space}

-- An `int` is an integer of 64 bits.
pub record ServerConfig : Type 0 where
  pub port : GoString

pub record OtlpConfig : Type 0 where
  pub grpc_port : GoString
  pub http_port : GoString
  pub grpc_max_concurrent_streams : ℕ
  pub grpc_max_recv_msg_size : ℤ

pub record MySqlConfig : Type 0 where
  pub host : GoString
  pub port : GoString
  pub database : GoString
  pub user : GoString
  pub password : GoString
  pub max_open_conns : ℤ
  pub max_idle_conns : ℤ

pub record ClickHouseConfig : Type 0 where
  pub host : GoString
  pub port : GoString
  pub database : GoString
  pub user : GoString
  pub password : GoString
  pub secure : Bool
  pub max_open_conns : ℤ
  pub max_idle_conns : ℤ

pub record KafkaConfig : Type 0 where
  pub broker_list : GoString
  pub topic_prefix : GoString
  pub dlq_prefix : GoString
  pub dlq_retention_hours : ℤ
  pub compression : GoString
  pub linger_ms : ℤ
  pub batch_max_bytes : ℤ
  pub fetch_max_bytes : ℤ
  pub fetch_max_partition_bytes : ℤ
  pub consumer_max_poll_records : ℤ
  pub consumer_insert_workers : ℤ

pub record SignalConfig : Type 0 where
  pub partitions : ℤ
  pub replicas : ℤ
  pub retention_hours : ℤ
  pub consumer_group : GoString

pub record SidePublishConfig : Type 0 where
  pub queue_size : ℤ
  pub workers : ℤ

pub record IngestionConfig : Type 0 where
  pub spans : SignalConfig
  pub logs : SignalConfig
  pub metrics : SignalConfig
  pub metric_series : SignalConfig
  pub ingestion_stats : SignalConfig
  pub llm_scores : SignalConfig
  pub side_publish : SidePublishConfig
  pub series_dedup_size : ℤ
  pub series_republish_interval_seconds : ℤ
  pub api_key_cache_ttl_seconds : ℤ
  pub api_key_cache_size : ℤ
  pub stats_flush_interval_seconds : ℤ

pub record Config : Type 0 where
  pub server : ServerConfig
  pub my_sql : MySqlConfig
  pub click_house : ClickHouseConfig
  pub kafka : KafkaConfig
  pub otlp : OtlpConfig
  pub ingestion : IngestionConfig

-- the loop of `KafkaBrokers` over the parts of the list
unfoldable pub named_brokers : List GoString → List GoString
named_brokers [] = []
named_brokers (part ∷ parts) = elim (trim_space part) [
  | [] ↦ named_brokers parts
  | c ∷ broker ↦ (c ∷ broker) ∷ named_brokers parts
]

-- `KafkaBrokers`
unfoldable pub kafka_brokers : Config → List GoString
unfolding named_brokers split_byte
kafka_brokers c = named_brokers (split_byte 44 [] c.kafka.broker_list)

pub data ConfigError : Type 0 where
  mysql_password_empty : ConfigError
  click_house_password_empty : ConfigError
  no_broker : ConfigError

-- `Validate`; `none` is nil
unfoldable pub validate : Config → Option ConfigError
validate c = elim c.my_sql.password [
  | [] ↦ some mysql_password_empty
  | _ ∷ _ ↦ elim c.click_house.password [
    | [] ↦ some click_house_password_empty
    | _ ∷ _ ↦ elim (kafka_brokers c) [ [] ↦ some no_broker | _ ∷ _ ↦ none ]
  ]
]

abbrev pub no_signal : SignalConfig
no_signal = record {
  partitions = pos 0;
  replicas = pos 0;
  retention_hours = pos 0;
  consumer_group = [];
}

-- `IngestSignal`
unfoldable pub ingest_signal : Config → GoString → SignalConfig
ingest_signal c signal =
    if signal == lit "spans"
    then c.ingestion.spans
    else if signal == lit "logs"
    then c.ingestion.logs
    else if signal == lit "metrics"
    then c.ingestion.metrics
    else if signal == lit "metric_series"
    then c.ingestion.metric_series
    else if signal == lit "ingestion_stats"
    then c.ingestion.ingestion_stats
    else if signal == lit "llm_scores"
    then c.ingestion.llm_scores
    else no_signal

-- `SignalDefaults`
unfoldable pub signal_defaults : GoString → SignalConfig
signal_defaults signal = record {
  partitions = pos 8;
  replicas = pos 1;
  retention_hours = pos 24;
  consumer_group = lit "optikk-ingest." ++ signal ++ lit ".consumer";
}

-- `if n > 0 { return n }; return d`
unfoldable pub or_default : ℤ → ℕ → ℕ
or_default (pos n) d = if ltb 0 n then n else d
or_default (negsuc n) d = d

-- `time.Duration(n) * time.Second`, in nanoseconds; the product wraps around
unfoldable pub seconds : ℤ → ℤ
unfolding wrap_int
seconds n = wrap_int 64 (n *ℤ 1000000000)

-- `SeriesRepublishInterval`, `APIKeyCacheTTL` and `StatsFlushInterval`
unfoldable pub series_republish_interval : Config → ℤ
unfolding seconds
series_republish_interval c = seconds c.ingestion.series_republish_interval_seconds

unfoldable pub api_key_cache_ttl : Config → ℤ
unfolding seconds
api_key_cache_ttl c = seconds c.ingestion.api_key_cache_ttl_seconds

unfoldable pub stats_flush_interval : Config → ℤ
unfolding seconds
stats_flush_interval c = seconds c.ingestion.stats_flush_interval_seconds

-- `KafkaCompression`
unfoldable pub kafka_compression : GoText → Config → GoString
kafka_compression text c = text.to_lower c.kafka.compression
