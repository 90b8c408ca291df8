-- ===== src/App/Topics.antt =====
-- `ingestTopicSpecs` and the signals of `buildIngest` (internal/app/ingest.go).
use ingest.Prelude.{
  Bool-cases, Distinct, GoString, List, [], ap, arith, elem, elem-append, false, if◌then◌else◌, inl,
  inr, lit, nat_key, refl, sym, text_beq_iff, text_key, ◌++◌, ◌==◌, ◌||◌, ◌∙◌, ◌∷◌, ◌≡◌,
}
use ingest.Prelude.Int.{wrap_int, ℤ}
use ingest.Config.{Config, SignalConfig, ingest_signal}
use ingest.Kafka.Topics.{TopicSpec, dlq_topic, ingest_topic}
use ingest.Kafka.Signal.{
  signal_ingestion_stats, signal_llm_scores, signal_logs, signal_metric_series, signal_metrics,
  signal_spans,
}

-- the functions that wire a signal: `wireSpans`, `wireLogs`, `wireMetrics(…)`, `insertOnly(…)`
pub data Wire : Type 0 where
  wire_spans : Wire
  wire_logs : Wire
  wire_metrics : Wire
  insert_only : Wire

-- `signalWiring`
pub record SignalWiring : Type 0 where
  pub signal : GoString
  pub cfg : SignalConfig
  pub wire : Wire

-- the `wirings` of `buildIngest`
unfoldable pub wirings_of : Config → List SignalWiring
unfolding ingest_signal
wirings_of c =
    record { signal = signal_spans; cfg = ingest_signal c (lit "spans"); wire = wire_spans }
    ∷ record { signal = signal_logs; cfg = ingest_signal c (lit "logs"); wire = wire_logs }
    ∷ record { signal = signal_metrics; cfg = ingest_signal c (lit "metrics"); wire = wire_metrics }
    ∷ record {
      signal = signal_metric_series;
      cfg = ingest_signal c (lit "metric_series");
      wire = insert_only;
    }
    ∷ record {
      signal = signal_ingestion_stats;
      cfg = ingest_signal c (lit "ingestion_stats");
      wire = insert_only;
    }
    ∷ record {
      signal = signal_llm_scores;
      cfg = ingest_signal c (lit "llm_scores");
      wire = insert_only;
    }
    ∷ []

-- the state of the loop: the specifications, and the names that were seen
pub record Specs : Type 0 where
  pub specs : List TopicSpec
  pub seen : List GoString

-- the body of the inner loop
unfoldable pub add_spec : SignalConfig → GoString → ℤ → Specs → Specs
unfolding wrap_int
add_spec cfg name retention s = if elem name s.seen then s else record {
  specs =
      s.specs
      ++ record {
        name = name;
        partitions = wrap_int 32 cfg.partitions;
        replicas = wrap_int 16 cfg.replicas;
        retention_hours = retention;
      }
        ∷ [];
  seen = name ∷ s.seen;
}

module _ (topic_prefix dlq_prefix : GoString) (dlq_retention_hours : ℤ) where
  unfoldable pub specs_loop : List SignalWiring → Specs → Specs
  unfolding add_spec ingest_topic dlq_topic
  specs_loop [] s = s
  specs_loop (w ∷ ws) s = specs_loop ws (
      add_spec w.cfg (dlq_topic dlq_prefix w.signal) dlq_retention_hours
        (add_spec w.cfg (ingest_topic topic_prefix w.signal) w.cfg.retention_hours s))

  -- `ingestTopicSpecs`
  unfoldable pub ingest_topic_specs : List SignalWiring → List TopicSpec
  unfolding specs_loop
  ingest_topic_specs wirings = (specs_loop wirings (record { specs = []; seen = [] })).specs

-- the topics that the signals are ingested and dead-lettered with
abbrev pub topics_of : GoString → GoString → List SignalWiring → List GoString
topics_of topic_prefix dlq_prefix [] = []
topics_of topic_prefix dlq_prefix (w ∷ ws) =
    ingest_topic topic_prefix w.signal
    ∷ dlq_topic dlq_prefix w.signal
    ∷ topics_of topic_prefix dlq_prefix ws

abbrev pub names : List TopicSpec → List GoString
names [] = []
names (s ∷ ss) = s.name ∷ names ss

names-append : (xs ys : List TopicSpec) → names (xs ++ ys) ≡ names xs ++ names ys
names-append [] ys = refl
names-append (x ∷ xs) ys = ap (◌∷◌ x.name) (names-append xs ys)

Distinct-snoc :
    (a : GoString) (xs : List GoString) → Distinct xs → elem a xs ≡ false → Distinct (xs ++ a ∷ [])
Distinct-snoc a [] d h = (refl, tt)
Distinct-snoc a (x ∷ xs) d h = (
  ground (arith, elem-append x xs (a ∷ []), text_beq_iff a x, text_beq_iff x a),
  Distinct-snoc a xs d.1 (ground arith),
)

-- The names that were seen are those of the specifications, each of which stands once.
record IsConsistent (s : Specs) : Type 0 where
  once : Distinct (names s.specs)
  same : (n : GoString) → elem n s.seen ≡ elem n (names s.specs)

add_spec-IsConsistent :
    (cfg : SignalConfig) (name : GoString) (r : ℤ) (s : Specs)
    → IsConsistent s
    → IsConsistent (add_spec cfg name r s)
unfolding add_spec
add_spec-IsConsistent cfg name r s h = elim (Bool-cases (elem name s.seen)) [
  | inl known ↦ rw known h
  | inr new ↦ rw new (record {
    once =
        rw (names-append s.specs _)
          (Distinct-snoc name (names s.specs) h.once (sym (h.same name) ∙ new));
    same = λ n.
        rw (names-append s.specs _)
          (ground (arith, elem-append n (names s.specs) (name ∷ []), h.same n));
  })
]

elem-add_spec :
    (cfg : SignalConfig) (name : GoString) (r : ℤ) (s : Specs) (n : GoString)
    → IsConsistent s
    → elem n (names (add_spec cfg name r s).specs) ≡ (elem n (names s.specs) || name == n)
unfolding add_spec
elem-add_spec cfg name r s n h = elim (Bool-cases (elem name s.seen)) [
  | inl known ↦ rw known (ground (arith, h.same name, text_beq_iff name n))
  | inr new ↦
      rw (new, names-append s.specs _) (ground (arith, elem-append n (names s.specs) (name ∷ [])))
]

module _ (topic_prefix dlq_prefix : GoString) (hours : ℤ) where
  specs_loop_lem :
      (ws : List SignalWiring) (s : Specs)
      → IsConsistent s
      → Distinct (names (specs_loop topic_prefix dlq_prefix hours ws s).specs)
        × ((n : GoString)
            → elem n (names (specs_loop topic_prefix dlq_prefix hours ws s).specs)
              ≡ (elem n (names s.specs) || elem n (topics_of topic_prefix dlq_prefix ws)))
  specs_loop_lem [] s h = unfold specs_loop in (h.once, λ n. ground arith)
  specs_loop_lem (w ∷ ws) s h =
      let ingest = ingest_topic topic_prefix w.signal in
      let dlq = dlq_topic dlq_prefix w.signal in
      let s' = add_spec w.cfg ingest w.cfg.retention_hours s in
      let h' = add_spec-IsConsistent w.cfg ingest w.cfg.retention_hours s h in
      let s'' = add_spec w.cfg dlq hours s' in
      let (once, same) = specs_loop_lem ws s'' (add_spec-IsConsistent w.cfg dlq hours s' h') in
      (
        rw (next w ws s) once,
        λ n. rw (next w ws s) (
            same n
            ∙ ground (
              arith,
              elem-add_spec w.cfg dlq hours s' n h',
              elem-add_spec w.cfg ingest w.cfg.retention_hours s n h,
            )),
      )
    where
      next :
          (w : SignalWiring) (ws : List SignalWiring) (s : Specs)
          → specs_loop topic_prefix dlq_prefix hours (w ∷ ws) s
            ≡ specs_loop topic_prefix dlq_prefix hours ws (
                add_spec w.cfg
                  (dlq_topic dlq_prefix w.signal)
                  hours
                  (add_spec w.cfg (ingest_topic topic_prefix w.signal) w.cfg.retention_hours s))
      next w ws s = unfold specs_loop in refl

  -- The topics that the start ensures are named once, and they are exactly the ingest topics and the
  -- dead-letter topics of the signals: none is missing, whatever names coincide, and no other is
  -- made.
  pub ingest_topic_specs_lem :
      (ws : List SignalWiring)
      → Distinct (names (ingest_topic_specs topic_prefix dlq_prefix hours ws))
        × ((n : GoString)
            → elem n (names (ingest_topic_specs topic_prefix dlq_prefix hours ws))
              ≡ elem n (topics_of topic_prefix dlq_prefix ws))
  unfolding ingest_topic_specs
  ingest_topic_specs_lem ws =
      specs_loop_lem ws (record { specs = []; seen = [] }) (record { once = tt; same = λ n. refl })
