-- ===== src/App/Used.antt =====
-- The topics that the wired parts use.
use mathlib.Core.List.{append-nil}
use ingest.Prelude.{
  All, All-append, Bool-cases, GoString, Key-sound, List, Option-cases, Sum-cases, [], append_assoc,
  arith, elem, inl, inr, lit, nat_key, none, refl, sym, text_beq, text_beq_iff, text_key, true,
  ◌++◌, ◌==◌, ◌∙◌, ◌∷◌, ◌≡◌,
}
use ingest.Prelude.Int.{ℤ}
use ingest.Kafka.Topics.{TopicSpec, dlq_topic, ingest_topic}
use ingest.Kafka.Signal.{signal_ingestion_stats, signal_llm_scores, signal_metric_series}
use ingest.App.Topics.{
  SignalWiring, Wire, ingest_topic_specs, ingest_topic_specs_lem, insert_only, names, topics_of,
  wire_logs, wire_metrics, wire_spans, wirings_of,
}
use ingest.App.{Event, Outside, consumer_handle, ensured, opened, producer_handle, stats_handle}
use ingest.Kafka.Client.{ClientConfig, new_consumer_client, new_producer_client}
use ingest.App.Built.{WhenBuilt, WhenBuilt-map, build_signals-WhenBuilt}
use ingest.App.Ingest.{
  Built, IngestBundle, add_signal, build_ingest, build_signals, built, client_config, close_on_err,
  consumer_failed, each, empty_bundle, ensure_failed, producer_failed, wire_signal,
}
use ingest.Config.{Config}
use ingest.GoText.{GoText}

abbrev signals : List SignalWiring → List GoString
signals [] = []
signals (w ∷ ws) = w.signal ∷ signals ws

module _ (topic_prefix dlq_prefix : GoString) (hours : ℤ) (ws : List SignalWiring) where
  -- a topic that the start ensures
  abbrev pub IsEnsured : GoString → Type 0
  IsEnsured n = elem n (names (ingest_topic_specs topic_prefix dlq_prefix hours ws)) ≡ true

  elem-topics_of :
      (vs : List SignalWiring) (s : GoString)
      → elem s (signals vs) ≡ true
      → (elem (ingest_topic topic_prefix s) (topics_of topic_prefix dlq_prefix vs) ≡ true)
        × (elem (dlq_topic dlq_prefix s) (topics_of topic_prefix dlq_prefix vs) ≡ true)
  elem-topics_of [] s h = cc
  elem-topics_of (w ∷ vs) s h = elim (Bool-cases (w.signal == s)) [
    | inl e ↦
        let same = Key-sound w.signal s e in
        rw (← same) (
          ground (
            arith,
            text_beq_iff (ingest_topic topic_prefix w.signal) (ingest_topic topic_prefix w.signal),
          ),
          ground
              (arith, text_beq_iff (dlq_topic dlq_prefix w.signal) (dlq_topic dlq_prefix w.signal)),
        )
    | inr e ↦
        let rest = elem-topics_of vs s (ground arith) in
        (ground (arith, rest), ground (arith, rest))
  ]

  ingest-IsEnsured :
      (s : GoString) → elem s (signals ws) ≡ true → IsEnsured (ingest_topic topic_prefix s)
  ingest-IsEnsured s h =
      (ingest_topic_specs_lem topic_prefix dlq_prefix hours ws).1 (ingest_topic topic_prefix s)
      ∙ (elem-topics_of ws s h).0

  dlq-IsEnsured : (s : GoString) → elem s (signals ws) ≡ true → IsEnsured (dlq_topic dlq_prefix s)
  dlq-IsEnsured s h =
      (ingest_topic_specs_lem topic_prefix dlq_prefix hours ws).1 (dlq_topic dlq_prefix s)
      ∙ (elem-topics_of ws s h).1

  publishes-AreEnsured :
      (w : SignalWiring)
      → elem w.signal (signals ws) ≡ true
      → elem signal_llm_scores (signals ws) ≡ true
      → elem signal_metric_series (signals ws) ≡ true
      → All IsEnsured (wire_signal topic_prefix dlq_prefix w).publishes
  unfolding wire_signal
  publishes-AreEnsured w h k l = by_wire w.wire refl
    where
      one : IsEnsured (ingest_topic topic_prefix w.signal)
      one = ingest-IsEnsured w.signal h

      dead : IsEnsured (dlq_topic dlq_prefix w.signal)
      dead = dlq-IsEnsured w.signal h

      by_wire :
          (x : Wire) → w.wire ≡ x → All IsEnsured (wire_signal topic_prefix dlq_prefix w).publishes
      by_wire wire_spans e =
          rw (e, wire_signal) (one, (ingest-IsEnsured signal_llm_scores k, (dead, tt)))
      by_wire wire_logs e = rw (e, wire_signal) (one, (dead, tt))
      by_wire wire_metrics e =
          rw (e, wire_signal) (one, (ingest-IsEnsured signal_metric_series l, (dead, tt)))
      by_wire insert_only e = rw (e, wire_signal) (dead, tt)

  abbrev pub Uses : IngestBundle → Type 0
  Uses b = All IsEnsured b.publishes × All IsEnsured b.consumer_topics

  -- The loop keeps it that the bundle uses ensured topics, for signals that are among the wired.
  pub build_signals-Uses :
      (o : Outside) (kcfg : ClientConfig) (vs : List SignalWiring) (b : IngestBundle)
      (t : List Event)
      → elem signal_llm_scores (signals ws) ≡ true
      → elem signal_metric_series (signals ws) ≡ true
      → All (λ v. elem v.signal (signals ws) ≡ true) vs
      → Uses b
      → WhenBuilt Uses (build_signals o topic_prefix dlq_prefix kcfg vs b t)
  unfolding add_signal
  build_signals-Uses o kcfg vs b t k l h u =
      WhenBuilt-map (Kept []) Uses (build_signals o topic_prefix dlq_prefix kcfg vs b t)
        (λ b' p. p.1)
        (build_signals-WhenBuilt o topic_prefix dlq_prefix kcfg Kept
          (λ v rest b' p. (
            p.0.1,
            (
              All-append IsEnsured b'.publishes (wire_signal topic_prefix dlq_prefix v).publishes
                  p.1.0 (publishes-AreEnsured v p.0.0 k l),
              All-append IsEnsured b'.consumer_topics (ingest_topic topic_prefix v.signal ∷ [])
                  p.1.1 (ingest-IsEnsured v.signal p.0.0, tt),
            ),
          ))
          vs b t (h, u))
    where
      Kept : List SignalWiring → IngestBundle → Type 0
      Kept rest b' = All (λ v. elem v.signal (signals ws) ≡ true) rest × Uses b'

-- What a start has ensured: after the trace `t0`, and before anything else, a list of topics was asked
-- for, without an error, and each topic that the bundle publishes to or consumes is named in it.
pub record Ensures (o : Outside) (t0 t : List Event) (b : IngestBundle) : Type 0 where
  pub specs : List TopicSpec
  pub later : List Event
  pub first : t ≡ t0 ++ (ensured specs ∷ later)
  pub answered : o.ensure specs ≡ none
  pub publishes : All (λ n. elem n (names specs) ≡ true) b.publishes
  pub consumes : All (λ n. elem n (names specs) ≡ true) b.consumer_topics

abbrev pub Covered : Outside → List Event → List Event × Built → Type 0
Covered o t0 (t, built b) = Ensures o t0 t b
Covered o t0 (t, ensure_failed) = Unit
Covered o t0 (t, producer_failed e) = Unit
Covered o t0 (t, consumer_failed s e) = Unit

Uses-Covered :
    (o : Outside) (t0 : List Event) (topic_prefix dlq_prefix : GoString) (hours : ℤ)
    (ws : List SignalWiring) (r : List Event × Built) (later : List Event)
    → r.0 ≡ t0 ++ (ensured (ingest_topic_specs topic_prefix dlq_prefix hours ws) ∷ later)
    → o.ensure (ingest_topic_specs topic_prefix dlq_prefix hours ws) ≡ none
    → WhenBuilt (Uses topic_prefix dlq_prefix hours ws) r
    → Covered o t0 r
Uses-Covered o t0 topic_prefix dlq_prefix hours ws (t, built b) later e ok u = record {
  specs = ingest_topic_specs topic_prefix dlq_prefix hours ws;
  later = later;
  first = e;
  answered = ok;
  publishes = u.0;
  consumes = u.1;
}
Uses-Covered o t0 topic_prefix dlq_prefix hours ws (t, ensure_failed) later e ok u = tt
Uses-Covered o t0 topic_prefix dlq_prefix hours ws (t, producer_failed x) later e ok u = tt
Uses-Covered o t0 topic_prefix dlq_prefix hours ws (t, consumer_failed s x) later e ok u = tt

-- The loop over the signals only adds to the trace.
build_signals-later :
    (o : Outside) (topic_prefix dlq_prefix : GoString) (kcfg : ClientConfig)
    (ws : List SignalWiring) (b : IngestBundle) (t : List Event)
    → (later : List Event) × ((build_signals o topic_prefix dlq_prefix kcfg ws b t).0 ≡ t ++ later)
unfolding build_signals
build_signals-later o topic_prefix dlq_prefix kcfg [] b t = ([], sym (append-nil t))
build_signals-later o topic_prefix dlq_prefix kcfg (w ∷ ws) b t =
    let new : List Event = each opened (
      consumer_handle (ingest_topic topic_prefix w.signal)
      ∷ (wire_signal topic_prefix dlq_prefix w).started) in
    elim (Sum-cases (
      new_consumer_client o.consumer_client kcfg w.cfg.consumer_group
        (ingest_topic topic_prefix w.signal))) [
          | inr (e, bad) ↦ (close_on_err b, rw (build_signals, bad))
          | inl (client, ok) ↦
              let (later, grown) =
                build_signals-later o topic_prefix dlq_prefix kcfg ws
                  (add_signal o topic_prefix dlq_prefix kcfg w b) (t ++ new) in
              (new ++ later, rw (build_signals, ok) (grown ∙ append_assoc t new later))
        ]

wirings_of-All :
    (c : Config) → All (λ v. elem v.signal (signals (wirings_of c)) ≡ true) (wirings_of c)
unfolding wirings_of lit text_beq
wirings_of-All c = (refl, (refl, (refl, (refl, (refl, (refl, tt))))))

stats_wired : (c : Config) → elem signal_ingestion_stats (signals (wirings_of c)) ≡ true
unfolding wirings_of lit text_beq
stats_wired c = refl

scores_wired : (c : Config) → elem signal_llm_scores (signals (wirings_of c)) ≡ true
unfolding wirings_of lit text_beq
scores_wired c = refl

series_wired : (c : Config) → elem signal_metric_series (signals (wirings_of c)) ≡ true
unfolding wirings_of lit text_beq
series_wired c = refl

-- Whenever the start of the ingestion gives a bundle, it has first of all asked for a list of topics,
-- before it opened any client, and without an error; and every topic that its producers and
-- dead-letter queues publish to, those of the scores, of the metric series and of the statistics
-- included, and every topic that its consumers read is named in that list.
pub build_ingest-Covered :
    (o : Outside) (text : GoText) (c : Config) (t : List Event)
    → Covered o t (build_ingest o text c t)
unfolding build_ingest
build_ingest-Covered o text c t =
    let prefix = c.kafka.topic_prefix in
    let dlq_prefix = c.kafka.dlq_prefix in
    let hours = c.kafka.dlq_retention_hours in
    let ws = wirings_of c in
    let kcfg = client_config text c in
    let specs = ingest_topic_specs prefix dlq_prefix hours ws in
    let start = empty_bundle (ingest_topic prefix signal_ingestion_stats) in
    let begun : List Event = each opened (producer_handle ∷ stats_handle ∷ []) in
    let ready : List Event = (t ++ ensured specs ∷ []) ++ begun in
    elim (Option-cases (o.ensure specs)) [
      | inr (e, bad) ↦ rw (build_ingest, bad) tt
      | inl ok ↦ elim (Sum-cases (new_producer_client o.producer_client kcfg)) [
        | inr (e, bad) ↦ rw (build_ingest, ok, bad) tt
        | inl (client, made) ↦
            let (later, grown) = build_signals-later o prefix dlq_prefix kcfg ws start ready in
            rw (build_ingest, ok, made)
              (Uses-Covered o t prefix dlq_prefix hours ws
                (build_signals o prefix dlq_prefix kcfg ws start ready) (begun ++ later)
                (grown
                  ∙ append_assoc (t ++ ensured specs ∷ []) begun later
                  ∙ append_assoc t (ensured specs ∷ []) (begun ++ later))
                ok
                (build_signals-Uses prefix dlq_prefix hours ws o kcfg ws start ready
                  (scores_wired c) (series_wired c) (wirings_of-All c)
                  (
                    (
                      ingest-IsEnsured prefix dlq_prefix hours ws signal_ingestion_stats
                          (stats_wired c),
                      tt,
                    ),
                    tt,
                  )))
      ]
    ]
