-- ===== src/Kafka/Signal.antt =====
-- The signals (topics.go), the signal of a topic, and the counters of the hooks (observability.go).
use ingest.Prelude.{
  GoString, Key, List, Option, [], ap, arith, drop, elem, if◌then◌else◌, inl, inr, length, lit,
  nat_key, none, refl, some, suc, text_beq_iff, text_key, true, ℕ, ◌++◌, ◌+◌, ◌∙◌, ◌∷◌, ◌≡◌, ◌⊎◌,
}
use ingest.Prelude.Pairs.{pair_key}
use ingest.GoMap.{GoMap, insert, lookup, size}
use ingest.GoStrings.{drop_past, last_index_byte, last_index_byte-append}
use ingest.Kafka.Topics.{dlq_topic, ingest_topic}

abbrev pub signal_spans : GoString
signal_spans = lit "spans"

abbrev pub signal_logs : GoString
signal_logs = lit "logs"

abbrev pub signal_metrics : GoString
signal_metrics = lit "metrics"

abbrev pub signal_metric_series : GoString
signal_metric_series = lit "metric_series"

abbrev pub signal_ingestion_stats : GoString
signal_ingestion_stats = lit "ingestion_stats"

abbrev pub signal_llm_scores : GoString
signal_llm_scores = lit "llm_scores"

-- `knownSignals`
abbrev pub known_signals : List GoString
known_signals =
    signal_spans ∷ signal_logs ∷ signal_metrics ∷ signal_metric_series ∷ signal_ingestion_stats
    ∷ signal_llm_scores ∷ []

-- `signalFromTopic`
unfoldable pub signal_from_topic : GoString → GoString
unfolding last_index_byte
signal_from_topic topic = elim (last_index_byte topic 46) [
  | none ↦ lit "unknown"
  | some i ↦
      let signal = drop (i + 1) topic in if elem signal known_signals then signal else lit "unknown"
]

no_dot : (signal : GoString) → elem signal known_signals ≡ true → last_index_byte signal 46 ≡ none
no_dot signal h = elim (known signal h) [
  | inl e ↦ rw (← e) (unfold last_index_byte lit in refl)
  | inr (inl e) ↦ rw (← e) (unfold last_index_byte lit in refl)
  | inr (inr (inl e)) ↦ rw (← e) (unfold last_index_byte lit in refl)
  | inr (inr (inr (inl e))) ↦ rw (← e) (unfold last_index_byte lit in refl)
  | inr (inr (inr (inr (inl e)))) ↦ rw (← e) (unfold last_index_byte lit in refl)
  | inr (inr (inr (inr (inr e)))) ↦ rw (← e) (unfold last_index_byte lit in refl)
]
  where
    known :
        (s : GoString)
        → elem s known_signals ≡ true
        → (signal_spans ≡ s)
          ⊎ (signal_logs ≡ s)
          ⊎ (signal_metrics ≡ s)
          ⊎ (signal_metric_series ≡ s)
          ⊎ (signal_ingestion_stats ≡ s)
          ⊎ (signal_llm_scores ≡ s)
    known s k = ground (
      arith,
      text_beq_iff signal_spans s,
      text_beq_iff signal_logs s,
      text_beq_iff signal_metrics s,
      text_beq_iff signal_metric_series s,
      text_beq_iff signal_ingestion_stats s,
      text_beq_iff signal_llm_scores s,
    )

behind_dot :
    (prefix signal : GoString)
    → elem signal known_signals ≡ true
    → signal_from_topic (prefix ++ 46 ∷ signal) ≡ signal
unfolding signal_from_topic
behind_dot prefix signal h =
    let plus_one : length prefix + 1 ≡ suc (length prefix) = omega arith in
    let past : drop (length prefix + 1) (prefix ++ 46 ∷ signal) ≡ signal =
      ap (λ n. drop n (prefix ++ 46 ∷ signal)) plus_one ∙ drop_past 46 prefix signal in
    rw (last_index_byte-append 46 prefix signal (no_dot signal h), signal_from_topic, past, h)

-- The signal of a topic is read back from the topic's name: from the ingest topic and from the
-- dead-letter topic of each of the six signals, whatever the prefix.
pub signal_from_topic_lem :
    (prefix signal : GoString)
    → elem signal known_signals ≡ true
    → (signal_from_topic (ingest_topic prefix signal) ≡ signal)
      × (signal_from_topic (dlq_topic prefix signal) ≡ signal)
unfolding ingest_topic dlq_topic
signal_from_topic_lem prefix signal h = (behind_dot prefix signal h, behind_dot prefix signal h)

-- the counters of the hooks, by their labels
pub record HookCounters : Type 0 where
  pub ingest_records : GoMap (GoString × GoString) ℕ
  pub ingest_bytes : GoMap GoString ℕ
  pub consumed_records : GoMap GoString ℕ
  pub broker_connects : GoMap GoString ℕ
  pub rebalances : GoMap GoString ℕ

-- `WithLabelValues(k).Add(n)`
unfoldable pub count : {K : Type 0} ⦃key : Key K⦄ → K → ℕ → GoMap K ℕ → GoMap K ℕ
count ⦃key⦄ k n m = elim (lookup ⦃k = key⦄ k m) [
  | none ↦ insert ⦃k = key⦄ k n m
  | some x ↦ insert ⦃k = key⦄ k (x + n) m
]

unfoldable pub result_label : Option GoString → GoString
result_label none = lit "ok"
result_label (some e) = lit "err"

-- `OnProduceRecordUnbuffered`, but for the histogram of the durations; `size` is the length of the
-- value
unfoldable pub on_produce_record : GoString → ℕ → Option GoString → HookCounters → HookCounters
unfolding count result_label signal_from_topic
on_produce_record topic size err c =
    let signal = signal_from_topic topic in
    record c {
      ingest_records =
          count ⦃key = pair_key text_key text_key⦄ (signal, result_label err) 1 c.ingest_records;
      ingest_bytes = count signal size c.ingest_bytes;
    }

-- `OnFetchRecordUnbuffered`
unfoldable pub on_fetch_record : GoString → HookCounters → HookCounters
unfolding count signal_from_topic
on_fetch_record topic c = record c {
  consumed_records = count (signal_from_topic topic) 1 c.consumed_records;
}

-- `OnBrokerConnect`
unfoldable pub on_broker_connect : Option GoString → HookCounters → HookCounters
unfolding count result_label
on_broker_connect err c = record c {
  broker_connects = count (result_label err) 1 c.broker_connects;
}

-- `OnGroupManageError`
unfoldable pub on_group_manage_error : Option GoString → HookCounters → HookCounters
unfolding count
on_group_manage_error none c = c
on_group_manage_error (some e) c = record c {
  rebalances = count (lit "manage_error") 1 c.rebalances;
}
