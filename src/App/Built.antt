-- ===== src/App/Built.antt =====
-- What holds of the bundle whenever the start of the ingestion gives one.
use ingest.Prelude.{
  GoString, List, Option-cases, Sum-cases, [], inl, inr, nat_key, text_key, ◌++◌, ◌∷◌,
}
use ingest.GoText.{GoText}
use ingest.Config.{Config}
use ingest.Kafka.Topics.{ingest_topic}
use ingest.Kafka.Client.{ClientConfig, new_consumer_client, new_producer_client}
use ingest.Kafka.Signal.{signal_ingestion_stats}
use ingest.App.{Event, Outside, consumer_handle, ensured, opened, producer_handle, stats_handle}
use ingest.App.Topics.{SignalWiring, ingest_topic_specs, wirings_of}
use ingest.App.Ingest.{
  Built, IngestBundle, add_signal, build_ingest, build_signals, built, client_config,
  consumer_failed, each, empty_bundle, ensure_failed, producer_failed, wire_signal,
}

abbrev pub WhenBuilt : (IngestBundle → Type 0) → List Event × Built → Type 0
WhenBuilt P (t, built b) = P b
WhenBuilt P (t, ensure_failed) = Unit
WhenBuilt P (t, producer_failed e) = Unit
WhenBuilt P (t, consumer_failed s e) = Unit

pub WhenBuilt-map :
    (P Q : IngestBundle → Type 0) (r : List Event × Built)
    → ((b : IngestBundle) → P b → Q b)
    → WhenBuilt P r
    → WhenBuilt Q r
WhenBuilt-map P Q (t, built b) f p = f b p
WhenBuilt-map P Q (t, ensure_failed) f p = tt
WhenBuilt-map P Q (t, producer_failed e) f p = tt
WhenBuilt-map P Q (t, consumer_failed s e) f p = tt

-- It is enough to look at the loop over the signals, which starts with an empty bundle.
pub build_ingest-WhenBuilt :
    (P : IngestBundle → Type 0) (o : Outside) (text : GoText) (c : Config) (t : List Event)
    → ((t' : List Event)
        → WhenBuilt P (
            build_signals o c.kafka.topic_prefix c.kafka.dlq_prefix
              (client_config text c)
              (wirings_of c)
              (empty_bundle (ingest_topic c.kafka.topic_prefix signal_ingestion_stats))
              t'))
    → WhenBuilt P (build_ingest o text c t)
unfolding build_ingest
build_ingest-WhenBuilt P o text c t loop =
    let specs =
      ingest_topic_specs c.kafka.topic_prefix c.kafka.dlq_prefix c.kafka.dlq_retention_hours
        (wirings_of c) in
    elim (Option-cases (o.ensure specs)) [
      | inr (e, bad) ↦ rw (build_ingest, bad) tt
      | inl ok ↦ elim (Sum-cases (new_producer_client o.producer_client (client_config text c))) [
        | inr (e, bad) ↦ rw (build_ingest, ok, bad) tt
        | inl (client, made) ↦
            rw (build_ingest, ok, made)
              (loop
                ((t ++ ensured specs ∷ []) ++ each opened (producer_handle ∷ stats_handle ∷ [])))
      ]
    ]

-- The loop keeps what a wired signal keeps.
module _ (o : Outside) (topic_prefix dlq_prefix : GoString) (kcfg : ClientConfig) where
  pub build_signals-WhenBuilt :
      (P : List SignalWiring → IngestBundle → Type 0)
      → ((w : SignalWiring) (ws : List SignalWiring) (b : IngestBundle)
          → P (w ∷ ws) b
          → P ws (add_signal o topic_prefix dlq_prefix kcfg w b))
      → (ws : List SignalWiring) (b : IngestBundle) (t : List Event) → P ws b
      → WhenBuilt (P []) (build_signals o topic_prefix dlq_prefix kcfg ws b t)
  unfolding build_signals
  build_signals-WhenBuilt P kept [] b t p = p
  build_signals-WhenBuilt P kept (w ∷ ws) b t p =
      elim (Sum-cases (
        new_consumer_client o.consumer_client kcfg w.cfg.consumer_group
          (ingest_topic topic_prefix w.signal))) [
            | inr (e, bad) ↦ rw (build_signals, bad) tt
            | inl (client, ok) ↦
                rw (build_signals, ok)
                  (build_signals-WhenBuilt P kept ws (add_signal o topic_prefix dlq_prefix kcfg w b)
                    (t
                      ++ each opened (
                          consumer_handle (ingest_topic topic_prefix w.signal)
                          ∷ (wire_signal topic_prefix dlq_prefix w).started))
                    (kept w ws b p))
          ]
