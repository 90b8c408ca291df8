-- ===== src/Tests/Samples.antt =====
-- Small instances of the parameters that the tests share.
use mathlib.Core.Path.{subst}
use ingest.Prelude.{
  All, Bool, Bool-cases, GoString, Key-sound, List, List-cases, Option, [], ap, arith, false,
  if◌then◌else◌, inl, inr, lit, nat_key, none, refl, some, sym, text_beq, text_key, true, ℕ, ◌&&◌,
  ◌++◌, ◌==◌, ◌^◌, ◌||◌, ◌∷◌, ◌≡◌, ◌≢◌,
}
use ingest.Prelude.Int.{pos, pos_part}
use ingest.App.{Outside}
use ingest.Writer.{ClickHouse}
use ingest.Writer.Atomic.{
  Block, Grows, HasPart, IsClickHouse, IsIn, Part, in_partition, nothing-Grows,
}
use ingest.Config.{Config, SignalConfig}
use ingest.GoFloat.{GoFloat}
use ingest.GoText.{GoText}
use ingest.Infra.Otlp.{GoAny, KeyValue, string_value}
use ingest.Columns.{Slots}

-- A float is a natural number here.
abbrev pub floats : GoFloat
floats = record {
  Float = ℕ;
  zero = 0;
  one = 1;
  of_int = pos_part;
  format = λ n. n ∷ [];
  parse = λ s. none;
  pow = λ a b. a ^ b;
}

abbrev pub no_json : GoAny ℕ → Option GoString
no_json v = none

abbrev pub text : GoText
text = record { to_upper = λ s. s; to_lower = λ s. s; unmarshal_strings = λ s. none }

abbrev pub attribute : GoString → GoString → KeyValue ℕ
attribute k v = record { key = k; value = some (string_value v) }

abbrev signal_sample : GoString → SignalConfig
signal_sample group = record {
  partitions = pos 8;
  replicas = pos 1;
  retention_hours = pos 24;
  consumer_group = group;
}

abbrev pub sample_config : Config
sample_config = record {
  server = record { port = [] };
  my_sql = record {
    host = lit "db";
    port = lit "3306";
    database = lit "optikk";
    user = lit "ingest";
    password = lit "secret";
    max_open_conns = pos 0;
    max_idle_conns = pos 0;
  };
  click_house = record {
    host = lit "ch";
    port = lit "9000";
    database = lit "optikk";
    user = lit "ingest";
    password = lit "secret";
    secure = false;
    max_open_conns = pos 0;
    max_idle_conns = pos 0;
  };
  kafka = record {
    broker_list = lit "kafka:9092";
    topic_prefix = lit "optikk.ingest";
    dlq_prefix = lit "optikk.dlq";
    dlq_retention_hours = pos 168;
    compression = lit "zstd";
    linger_ms = pos 20;
    batch_max_bytes = pos 1048576;
    fetch_max_bytes = pos 8388608;
    fetch_max_partition_bytes = pos 1048576;
    consumer_max_poll_records = pos 5000;
    consumer_insert_workers = pos 1;
  };
  otlp = record {
    grpc_port = lit "4317";
    http_port = lit "4318";
    grpc_max_concurrent_streams = 10000;
    grpc_max_recv_msg_size = pos 16777216;
  };
  ingestion = record {
    spans = signal_sample (lit "spans");
    logs = signal_sample (lit "logs");
    metrics = signal_sample (lit "metrics");
    metric_series = signal_sample (lit "series");
    ingestion_stats = signal_sample (lit "stats");
    llm_scores = signal_sample (lit "scores");
    side_publish = record { queue_size = pos 4096; workers = pos 2 };
    series_dedup_size = pos 500000;
    series_republish_interval_seconds = pos 900;
    api_key_cache_ttl_seconds = pos 30;
    api_key_cache_size = pos 50000;
    stats_flush_interval_seconds = pos 300;
  };
}

-- Everything outside works.
abbrev pub all_well : Outside
all_well = record {
  driver_config = none;
  mysql_connector = none;
  mysql_ping = none;
  click_house_open = none;
  click_house_ping = none;
  ensure = λ specs. none;
  producer_client = λ options. inl tt;
  consumer_client = λ options. inl tt;
  grpc_listen = λ addr. none;
  group = none;
}

-- A server with one partition, whose state is the list of its parts, and which drops a block
-- when it has a part under its token.
abbrev pub all_rows : Slots ℕ → GoString
all_rows vals = []

abbrev knows : Block ℕ → List (Part ℕ) → Bool
knows b [] = false
knows b (p ∷ ps) = (p.token == b.token) && (p.query == b.query) && (p.partition == []) || knows b ps

abbrev whole_part : Block ℕ → Part ℕ
whole_part b = record { token = b.token; query = b.query; partition = []; rows = b.rows }

abbrev take_rows : Block ℕ → List (Part ℕ) → List (Slots ℕ) → List (Part ℕ)
take_rows b s [] = s
take_rows b s (r ∷ rs) = if knows b s then s else s ++ whole_part b ∷ []

abbrev take_block : Block ℕ → List (Part ℕ) → List (Part ℕ)
take_block b s = take_rows b s b.rows

abbrev pub server : ClickHouse ℕ (Block ℕ) (List (Part ℕ))
server = record {
  prepare_batch = λ t q s. (s, inr (record { token = t; query = q; rows = [] }));
  append = λ vals b. (record b { rows = b.rows ++ vals ∷ [] }, none);
  send = λ b s. (take_block b s, none);
}

in_all_rows : (rows : List (Slots ℕ)) → in_partition all_rows [] rows ≡ rows
unfolding text_beq
in_all_rows [] = refl
in_all_rows (r ∷ rs) = ap (◌∷◌ r) (in_all_rows rs)

take_rows_known :
    (b : Block ℕ) (s : List (Part ℕ)) (rows : List (Slots ℕ))
    → knows b s ≡ true
    → take_rows b s rows ≡ s
take_rows_known b s [] h = refl
take_rows_known b s (r ∷ rs) h = rw h refl

take_rows_new :
    (b : Block ℕ) (s : List (Part ℕ)) (rows : List (Slots ℕ))
    → rows ≢ []
    → knows b s ≡ false
    → take_rows b s rows ≡ s ++ whole_part b ∷ []
take_rows_new b s [] n h = absurd (n refl)
take_rows_new b s (r ∷ rs) n h = rw h refl

take_block-Grows : (b : Block ℕ) (s : List (Part ℕ)) → Grows all_rows b s (take_block b s)
take_block-Grows b s = elim (List-cases b.rows) [
  | inl e ↦ nothing-Grows all_rows b s (take_block b s) (ap (take_rows b s) e)
  | inr (r, rs, e) ↦ elim (Bool-cases (knows b s)) [
    | inl h ↦ nothing-Grows all_rows b s (take_block b s) (take_rows_known b s b.rows h)
    | inr h ↦ record {
      new = whole_part b ∷ [];
      grown = take_rows_new b s b.rows (λ z. cc) h;
      parts = (
        record {
          token = refl;
          query = refl;
          whole = sym (in_all_rows b.rows);
          not_empty = λ z. cc;
        },
        tt,
      );
      once = (refl, tt);
    }
  ]
]

knows-HasPart : (b : Block ℕ) (s : List (Part ℕ)) → knows b s ≡ true → HasPart all_rows b [] s
knows-HasPart b [] h = cc
knows-HasPart b (p ∷ ps) h = elim (Bool-cases (p.token == b.token)) [
  | inl e ↦ elim (Bool-cases (p.query == b.query)) [
    | inl f ↦ elim (Bool-cases (p.partition == [])) [
      | inl g ↦
          inl (Key-sound p.token b.token e, Key-sound p.query b.query f, Key-sound p.partition [] g)
      | inr g ↦ inr (knows-HasPart b ps (ground arith))
    ]
    | inr f ↦ inr (knows-HasPart b ps (ground arith))
  ]
  | inr e ↦ inr (knows-HasPart b ps (ground arith))
]

HasPart-last : (b : Block ℕ) (s : List (Part ℕ)) → HasPart all_rows b [] (s ++ whole_part b ∷ [])
HasPart-last b [] = inl (refl, refl, refl)
HasPart-last b (p ∷ ps) = inr (HasPart-last b ps)

everywhere :
    (b : Block ℕ) (ps : List (Part ℕ)) (rows : List (Slots ℕ))
    → HasPart all_rows b [] ps
    → All (λ r. HasPart all_rows b (all_rows r) ps) rows
everywhere b ps [] h = tt
everywhere b ps (r ∷ rs) h = (h, everywhere b ps rs h)

take_block-IsIn : (b : Block ℕ) (s : List (Part ℕ)) → IsIn all_rows b (take_block b s)
take_block-IsIn b s = elim (List-cases b.rows) [
  | inl e ↦ rw e tt
  | inr (r, rs, e) ↦ elim (Bool-cases (knows b s)) [
    | inl h ↦
        everywhere b (take_block b s) b.rows
          (subst (HasPart all_rows b []) (sym (take_rows_known b s b.rows h)) (knows-HasPart b s h))
    | inr h ↦ everywhere b (take_block b s) b.rows (
        subst (HasPart all_rows b []) (sym (take_rows_new b s b.rows (λ z. cc) h))
          (HasPart-last b s))
  ]
]

pub server-IsClickHouse : IsClickHouse server all_rows (λ s. s) (λ b. b)
server-IsClickHouse = record {
  prepare_keeps = λ t q s. refl;
  prepare_empty = λ t q s b e. cc;
  append_adds = λ vals b e. refl;
  send_grows = take_block-Grows;
  send_done = λ b s e. take_block-IsIn b s;
}
