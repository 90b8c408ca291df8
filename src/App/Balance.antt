-- ===== src/App/Balance.antt =====
-- What is opened and what is closed, counted in the trace.
use mathlib.Core.List.{map-append}
use ingest.Prelude.{
  Bool-cases, GoString, List, Option-cases, Sum-cases, [], arith, inl, inr, map, nat_key, refl,
  text_key, true, ◌++◌, ◌+◌, ◌∷◌, ◌≡◌, ◌⊎◌,
}
use ingest.Kafka.Client.{ClientConfig, new_consumer_client, new_producer_client}
use ingest.Kafka.Signal.{signal_ingestion_stats}
use ingest.Kafka.Topics.{ingest_topic}
use ingest.App.{
  Event, Handle, Outside, consumer_handle, ensured, handle_beq, opened, producer_handle,
  publisher_handle, stats_handle,
}
use ingest.App.Counts.{
  closes, closes-append, closes-each, occurs, occurs-append, opens, opens-append, opens-each,
}
use ingest.App.Topics.{
  SignalWiring, Wire, ingest_topic_specs, insert_only, wire_logs, wire_metrics, wire_spans,
  wirings_of,
}
use ingest.App.Ingest.{
  Built, IngestBundle, add_signal, build_ingest, build_signals, built, client_config, close_on_err,
  consumer_failed, each, empty_bundle, ensure_failed, producer_failed, wire_signal,
}
use ingest.GoText.{GoText}
use ingest.Config.{Config}

module _ (h : Handle) where
  -- what a bundle holds: its consumer clients, what it has to close, and the producer client
  abbrev pub held : IngestBundle → List Handle
  held b = map consumer_handle b.consumer_topics ++ (b.closers ++ producer_handle ∷ [])

  -- Since `t0` exactly what the bundle holds was opened, and nothing was closed.
  pub record Holds (t0 t : List Event) (b : IngestBundle) : Type 0 where
    pub now_open : opens h t ≡ opens h t0 + occurs h (held b)
    pub kept : closes h t ≡ closes h t0

  -- Beside publishers, only the recorder is to be closed.
  abbrev Closers : IngestBundle → Type 0
  Closers b =
      (handle_beq publisher_handle h ≡ true) ⊎ (occurs h b.closers ≡ occurs h (stats_handle ∷ []))

  -- Since `t0` everything that was opened was closed, but for a publisher.
  abbrev pub Undone : List Event → List Event → Type 0
  Undone t0 t =
      (handle_beq publisher_handle h ≡ true) ⊎ (opens h t + closes h t0 ≡ closes h t + opens h t0)

  abbrev pub AfterBuild : List Event → List Event × Built → Type 0
  AfterBuild t0 (t, built b) = Holds t0 t b
  AfterBuild t0 (t, ensure_failed) = Undone t0 t
  AfterBuild t0 (t, producer_failed e) = Undone t0 t
  AfterBuild t0 (t, consumer_failed s e) = Undone t0 t

  close_on_err-Undone :
      (t0 t : List Event) (b : IngestBundle)
      → Holds t0 t b
      → Closers b
      → Undone t0 (t ++ close_on_err b)
  unfolding close_on_err
  close_on_err-Undone t0 t b k (inl p) = inl p
  close_on_err-Undone t0 t b k (inr c) =
      let cs = map consumer_handle b.consumer_topics in
      inr (
        omega (
          arith,
          k.now_open,
          k.kept,
          c,
          opens-append h t (close_on_err b),
          closes-append h t (close_on_err b),
          closes-each h (cs ++ stats_handle ∷ producer_handle ∷ []),
          occurs-append h cs (stats_handle ∷ producer_handle ∷ []),
          occurs-append h cs (b.closers ++ producer_handle ∷ []),
          occurs-append h b.closers (producer_handle ∷ []),
          occurs-append h (stats_handle ∷ []) (producer_handle ∷ []),
        ))

  module _ (o : Outside) (topic_prefix dlq_prefix : GoString) (kcfg : ClientConfig) where
    started : SignalWiring → List Handle
    started w = (wire_signal topic_prefix dlq_prefix w).started

    started-publisher :
        (w : SignalWiring) → (handle_beq publisher_handle h ≡ true) ⊎ (occurs h (started w) ≡ 0)
    unfolding started wire_signal
    started-publisher w = by_wire w.wire refl
      where
        by_wire :
            (x : Wire)
            → w.wire ≡ x
            → (handle_beq publisher_handle h ≡ true) ⊎ (occurs h (started w) ≡ 0)
        by_wire wire_spans e = elim (Bool-cases (handle_beq publisher_handle h)) [
          | inl p ↦ inl p
          | inr p ↦ inr (rw (e, wire_signal, p))
        ]
        by_wire wire_logs e = inr (rw (e, wire_signal))
        by_wire wire_metrics e = inr (rw (e, wire_signal))
        by_wire insert_only e = inr (rw (e, wire_signal))

    add_signal-Closers :
        (w : SignalWiring) (b : IngestBundle)
        → Closers b
        → Closers (add_signal o topic_prefix dlq_prefix kcfg w b)
    unfolding add_signal started
    add_signal-Closers w b (inl p) = inl p
    add_signal-Closers w b (inr c) = elim (started-publisher w) [
      | inl p ↦ inl p
      | inr none_ ↦ inr (omega (arith, occurs-append h b.closers (started w), none_, c))
    ]

    add_signal-Holds :
        (t0 t : List Event) (w : SignalWiring) (b : IngestBundle)
        → Holds t0 t b
        → Holds t0
            (t ++ each opened (consumer_handle (ingest_topic topic_prefix w.signal) ∷ started w))
            (add_signal o topic_prefix dlq_prefix kcfg w b)
    unfolding add_signal started
    add_signal-Holds t0 t w b k =
        let topic = ingest_topic topic_prefix w.signal in
        let new : List Handle = consumer_handle topic ∷ started w in
        let cs = map consumer_handle b.consumer_topics in
        record {
          now_open = rw (map-append consumer_handle b.consumer_topics (topic ∷ [])) (
              omega (
                arith,
                k.now_open,
                opens-append h t (each opened new),
                opens-each h new,
                occurs-append h (consumer_handle topic ∷ []) (started w),
                occurs-append h (cs ++ consumer_handle topic ∷ [])
                    ((b.closers ++ started w) ++ producer_handle ∷ []),
                occurs-append h cs (consumer_handle topic ∷ []),
                occurs-append h (b.closers ++ started w) (producer_handle ∷ []),
                occurs-append h b.closers (started w),
                occurs-append h cs (b.closers ++ producer_handle ∷ []),
                occurs-append h b.closers (producer_handle ∷ []),
              ));
          kept = omega (arith, k.kept, closes-append h t (each opened new), opens-each h new);
        }

    build_signals-AfterBuild :
        (t0 t : List Event) (ws : List SignalWiring) (b : IngestBundle)
        → Holds t0 t b
        → Closers b
        → AfterBuild t0 (build_signals o topic_prefix dlq_prefix kcfg ws b t)
    unfolding build_signals started wire_signal
    build_signals-AfterBuild t0 t [] b k c = k
    build_signals-AfterBuild t0 t (w ∷ ws) b k c =
        elim (Sum-cases (
          new_consumer_client o.consumer_client kcfg w.cfg.consumer_group
            (ingest_topic topic_prefix w.signal))) [
              | inr (e, bad) ↦ rw (build_signals, bad) (close_on_err-Undone t0 t b k c)
              | inl (client, ok) ↦
                  rw (build_signals, ok)
                    (build_signals-AfterBuild t0
                      (t
                        ++ each opened
                            (consumer_handle (ingest_topic topic_prefix w.signal) ∷ started w))
                      ws (add_signal o topic_prefix dlq_prefix kcfg w b)
                      (add_signal-Holds t0 t w b k) (add_signal-Closers w b c))
            ]

  nothing : (t0 t : List Event) → opens h t ≡ opens h t0 → closes h t ≡ closes h t0 → Undone t0 t
  nothing t0 t e f = inr (omega arith)

  pub build_ingest-AfterBuild :
      (o : Outside) (text : GoText) (c : Config) (t0 : List Event)
      → AfterBuild t0 (build_ingest o text c t0)
  unfolding build_ingest
  build_ingest-AfterBuild o text c t0 =
      let specs =
        ingest_topic_specs c.kafka.topic_prefix c.kafka.dlq_prefix c.kafka.dlq_retention_hours
          (wirings_of c) in
      let ready = t0 ++ ensured specs ∷ [] in
      let same : (opens h ready ≡ opens h t0) × (closes h ready ≡ closes h t0) = (
        omega (arith, opens-append h t0 (ensured specs ∷ [])),
        omega (arith, closes-append h t0 (ensured specs ∷ [])),
      ) in
      let begun : List Handle = producer_handle ∷ stats_handle ∷ [] in
      elim (Option-cases (o.ensure specs)) [
        | inr (e, bad) ↦ rw (build_ingest, bad) (nothing t0 ready same.0 same.1)
        | inl ok ↦ elim (Sum-cases (new_producer_client o.producer_client (client_config text c))) [
          | inr (e, bad) ↦ rw (build_ingest, ok, bad) (nothing t0 ready same.0 same.1)
          | inl (client, made) ↦
              rw (build_ingest, ok, made)
                (build_signals-AfterBuild o c.kafka.topic_prefix c.kafka.dlq_prefix
                  (client_config text c) t0 (ready ++ each opened begun) (wirings_of c)
                  (empty_bundle (ingest_topic c.kafka.topic_prefix signal_ingestion_stats))
                  (record {
                    now_open = omega (
                      arith,
                      same,
                      opens-append h ready (each opened begun),
                      opens-each h begun,
                      occurs-append h (producer_handle ∷ []) (stats_handle ∷ []),
                      occurs-append h (stats_handle ∷ []) (producer_handle ∷ []),
                    );
                    kept = omega (
                      arith,
                      same,
                      closes-append h ready (each opened begun),
                      opens-each h begun,
                    );
                  })
                  (inr refl))
        ]
      ]
