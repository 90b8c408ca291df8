-- ===== src/Kafka/Client.antt =====
-- internal/infra/kafka/client.go: the options of the producer's and the consumers' clients.
use ingest.Prelude.{
  Bool, GoString, List, [], false, if◌then◌else◌, inl, inr, lit, ltb, nat_key, text_key, ℕ, ◌*◌,
  ◌==◌, ◌^◌, ◌||◌, ◌∷◌, ◌⊎◌,
}
use ingest.Prelude.Int.{negsuc, pos, wrap_int, ℤ, ◌*ℤ◌}

-- `kafka.Config`
pub record ClientConfig : Type 0 where
  pub brokers : List GoString
  pub linger_ms : ℤ
  pub batch_max_bytes : ℤ
  pub fetch_max_bytes : ℤ
  pub fetch_max_partition_bytes : ℤ
  pub compression : GoString

pub data Codec : Type 0 where
  no_compression : Codec
  gzip_compression : Codec
  snappy_compression : Codec
  lz4_compression : Codec
  zstd_compression : Codec

-- `compression`
unfoldable pub compression_codec : GoString → Codec
compression_codec name =
    if name == lit "none"
    then no_compression
    else if name == lit "gzip"
    then gzip_compression
    else if name == lit "snappy"
    then snappy_compression
    else if name == lit "lz4"
    then lz4_compression
    else zstd_compression

abbrev pub is_positive : ℤ → Bool
is_positive (pos n) = ltb 0 n
is_positive (negsuc _) = false

-- `linger`, in nanoseconds; the product wraps around
unfoldable pub linger : ClientConfig → ℤ
unfolding wrap_int ◌*ℤ◌
linger cfg =
    if is_positive cfg.linger_ms then wrap_int 64 (cfg.linger_ms *ℤ 1000000) else pos 20000000

-- `int32(n)` of a positive `n`, and the default otherwise
unfoldable pub bytes_or : ℤ → ℕ → ℤ
unfolding wrap_int
bytes_or n d = if is_positive n then wrap_int 32 n else pos d

unfoldable pub batch_max : ClientConfig → ℤ
unfolding bytes_or
batch_max cfg = bytes_or cfg.batch_max_bytes (2 ^ 20)

unfoldable pub fetch_max : ClientConfig → ℤ
unfolding bytes_or
fetch_max cfg = bytes_or cfg.fetch_max_bytes (8 * 2 ^ 20)

unfoldable pub fetch_max_partition : ClientConfig → ℤ
unfolding bytes_or
fetch_max_partition cfg = bytes_or cfg.fetch_max_partition_bytes (2 ^ 20)

-- The options that a client is made with. The acknowledgements, the partitioner, the balancer and
-- the hooks are fixed, and left out.
pub record ProducerOptions : Type 0 where
  pub seed_brokers : List GoString
  pub producer_linger : ℤ
  pub producer_batch_max_bytes : ℤ
  pub max_buffered_records : ℕ
  pub producer_batch_compression : Codec

pub record ConsumerOptions : Type 0 where
  pub seed_brokers : List GoString
  pub consumer_group : GoString
  pub consume_topic : GoString
  pub auto_commit : Bool
  pub fetch_max_wait : ℕ
  pub fetch_max_bytes : ℤ
  pub fetch_max_partition_bytes : ℤ

pub data ClientError : Type 0 where
  brokers_required : ClientError
  group_and_topic_required : ClientError
  client_failed : GoString → ClientError

-- What `kgo.NewClient` gives for options: a client, or an error.
module _ {C : Type 0} where
  -- `NewProducerClient`
  unfoldable pub new_producer_client :
      (ProducerOptions → C ⊎ GoString) → ClientConfig → C ⊎ ClientError
  unfolding linger batch_max compression_codec
  new_producer_client new_client cfg = elim cfg.brokers [
    | [] ↦ inr brokers_required
    | b ∷ bs ↦
        elim (new_client (record {
          seed_brokers = b ∷ bs;
          producer_linger = linger cfg;
          producer_batch_max_bytes = batch_max cfg;
          max_buffered_records = 2 ^ 18;
          producer_batch_compression = compression_codec cfg.compression;
        })) [ inl client ↦ inl client | inr e ↦ inr (client_failed e) ]
  ]

  -- `NewConsumerClient`
  unfoldable pub new_consumer_client :
      (ConsumerOptions → C ⊎ GoString) → ClientConfig → GoString → GoString → C ⊎ ClientError
  unfolding fetch_max fetch_max_partition
  new_consumer_client new_client cfg group_id topic = elim cfg.brokers [
    | [] ↦ inr brokers_required
    | b ∷ bs ↦
        if group_id == [] || topic == []
        then inr group_and_topic_required
        else elim (new_client (record {
          seed_brokers = b ∷ bs;
          consumer_group = group_id;
          consume_topic = topic;
          auto_commit = false;
          fetch_max_wait = 2000000000;
          fetch_max_bytes = fetch_max cfg;
          fetch_max_partition_bytes = fetch_max_partition cfg;
        })) [ inl client ↦ inl client | inr e ↦ inr (client_failed e) ]
  ]
