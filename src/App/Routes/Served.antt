-- ===== src/App/Routes/Served.antt =====
-- The paths that the servers answer, for the modules that the start makes.
use mathlib.Core.List.{append-nil}
use mathlib.Core.Path.{subst}
use ingest.Prelude.{
  GoString, List, Option, [], append_assoc, arith, false, if◌then◌else◌, lit, nat_key, none, refl,
  some, sym, text_beq, text_beq_iff, text_key, true, ℕ, ◌++◌, ◌==◌, ◌||◌, ◌∙◌, ◌∷◌, ◌≡◌, ◌≢◌,
}
use ingest.GoText.{GoText}
use ingest.Config.{Config}
use ingest.Kafka.Topics.{ingest_topic}
use ingest.Kafka.Client.{ClientConfig}
use ingest.Kafka.Signal.{signal_ingestion_stats, signal_logs, signal_metrics, signal_spans}
use ingest.App.{Event, Outside}
use ingest.App.Topics.{SignalWiring, wirings_of}
use ingest.App.Built.{WhenBuilt, WhenBuilt-map, build_ingest-WhenBuilt, build_signals-WhenBuilt}
use ingest.App.Ingest.{
  Built, IngestBundle, add_signal, build_ingest, build_signals, client_config, empty_bundle,
  wire_signal,
}
use ingest.App.Routes.{
  HttpHandler, HttpServer, Mux, add_http_servers, answers, handle, health, health_mux, http_server,
  metrics_page, otlp_export, otlp_pattern, register_otlp_http,
}
use ingest.GoMap.{insert, lookup}

abbrev Makes : List GoString → List Event × Built → Type 0
Makes ms = WhenBuilt (λ b. b.modules ≡ ms)

module _ (topic_prefix dlq_prefix : GoString) where
  modules_of : List SignalWiring → List GoString
  modules_of [] = []
  modules_of (w ∷ ws) = (wire_signal topic_prefix dlq_prefix w).modules ++ modules_of ws

  build_signals-Makes :
      (o : Outside) (kcfg : ClientConfig) (ms : List GoString) (ws : List SignalWiring)
      (b : IngestBundle) (t : List Event)
      → b.modules ++ modules_of ws ≡ ms
      → Makes ms (build_signals o topic_prefix dlq_prefix kcfg ws b t)
  unfolding add_signal modules_of
  build_signals-Makes o kcfg ms ws b t e =
      WhenBuilt-map (λ b'. b'.modules ++ [] ≡ ms) (λ b'. b'.modules ≡ ms)
        (build_signals o topic_prefix dlq_prefix kcfg ws b t)
        (λ b' p. sym (append-nil b'.modules) ∙ p)
        (build_signals-WhenBuilt o topic_prefix dlq_prefix kcfg
          (λ rest b'. b'.modules ++ modules_of rest ≡ ms)
          (λ w rest b' p.
            append_assoc b'.modules (wire_signal topic_prefix dlq_prefix w).modules
              (modules_of rest)
            ∙ p)
          ws b t e)

three_modules : List GoString
three_modules = signal_spans ∷ signal_logs ∷ signal_metrics ∷ []

build_ingest-Makes :
    (o : Outside) (text : GoText) (c : Config) (t : List Event)
    → Makes three_modules (build_ingest o text c t)
unfolding three_modules modules_of wirings_of wire_signal
build_ingest-Makes o text c t =
    let prefix = c.kafka.topic_prefix in
    build_ingest-WhenBuilt (λ b. b.modules ≡ three_modules) o text c t
      (λ t'.
        build_signals-Makes prefix c.kafka.dlq_prefix o (client_config text c) three_modules
          (wirings_of c) (empty_bundle (ingest_topic prefix signal_ingestion_stats)) t' refl)

-- what the OTLP server is meant to answer
abbrev pub otlp_route : GoString → Option HttpHandler
otlp_route path =
    if path == lit "/v1/traces"
    then some (otlp_export signal_spans)
    else if path == lit "/v1/logs"
    then some (otlp_export signal_logs)
    else if path == lit "/v1/metrics"
    then some (otlp_export signal_metrics)
    else none

-- what the other server is meant to answer
abbrev pub own_route : GoString → Option HttpHandler
own_route path =
    if path == lit "/metrics"
    then some metrics_page
    else if path == lit "/health" || path == lit "/health/live" || path == lit "/health/ready"
    then some health
    else none

abbrev pub Serves : Config → List GoString → Type 0
Serves c modules =
    (servers : List HttpServer) × (add_http_servers c modules ≡ some servers)
    × ((path : GoString) → answers servers (58 ∷ c.server.port) path ≡ own_route path)
    × ((path : GoString) → answers servers (58 ∷ c.otlp.http_port) path ≡ otlp_route path)

own_mux : Mux
own_mux =
    (lit "/metrics", metrics_page)
    ∷ (lit "/health", health)
    ∷ (lit "/health/live", health)
    ∷ (lit "/health/ready", health)
    ∷ []

otlp_mux : Mux
otlp_mux =
    (lit "/v1/traces", otlp_export signal_spans)
    ∷ (lit "/v1/logs", otlp_export signal_logs)
    ∷ (lit "/v1/metrics", otlp_export signal_metrics)
    ∷ []

health_mux-own : health_mux ≡ some own_mux
unfolding health_mux own_mux handle insert lookup lit text_beq
health_mux-own = refl

register_otlp_http-three : register_otlp_http three_modules [] ≡ some otlp_mux
unfolding register_otlp_http handle otlp_pattern three_modules otlp_mux insert lookup lit text_beq
register_otlp_http-three = refl

lookup-own : (path : GoString) → lookup path own_mux ≡ own_route path
unfolding own_mux lookup
lookup-own path = ground (
  arith,
  text_beq_iff path (lit "/metrics"),
  text_beq_iff (lit "/metrics") path,
  text_beq_iff path (lit "/health"),
  text_beq_iff (lit "/health") path,
  text_beq_iff path (lit "/health/live"),
  text_beq_iff (lit "/health/live") path,
  text_beq_iff path (lit "/health/ready"),
  text_beq_iff (lit "/health/ready") path,
)

lookup-otlp : (path : GoString) → lookup path otlp_mux ≡ otlp_route path
unfolding otlp_mux lookup
lookup-otlp path = ground (
  arith,
  text_beq_iff path (lit "/v1/traces"),
  text_beq_iff (lit "/v1/traces") path,
  text_beq_iff path (lit "/v1/logs"),
  text_beq_iff (lit "/v1/logs") path,
  text_beq_iff path (lit "/v1/metrics"),
  text_beq_iff (lit "/v1/metrics") path,
)

three_modules-Serves :
    (c : Config) (d : ℕ) (port : GoString)
    → c.otlp.http_port ≡ d ∷ port
    → c.server.port ≢ d ∷ port
    → Serves c three_modules
unfolding add_http_servers
three_modules-Serves c d port e ne =
    let servers : List HttpServer =
      http_server c.server.port own_mux ∷ http_server (d ∷ port) otlp_mux ∷ [] in
    let other : ((58 ∷ c.server.port) == (58 ∷ d ∷ port)) ≡ false =
      ground (arith, ne, text_beq_iff (58 ∷ c.server.port) (58 ∷ d ∷ port)) in
    let self : (s : GoString) → (s == s) ≡ true = λ s. (text_beq_iff s s).1 refl in
    (
      servers,
      rw (add_http_servers, health_mux-own, e, register_otlp_http-three),
      λ path. rw (self (58 ∷ c.server.port)) (lookup-own path),
      λ path. rw (e, other, self (58 ∷ d ∷ port)) (lookup-otlp path),
    )

-- Whenever the start of the ingestion gives a bundle, and the OTLP port is set and differs from the
-- port of the other server, its modules are registered without a panic: the OTLP server answers
-- exactly the paths of traces, logs and metrics, each with the export of its signal, and the
-- other server exactly the metrics page and the three health checks.
pub build_ingest-Serves :
    (o : Outside) (text : GoText) (c : Config) (t : List Event) (d : ℕ) (port : GoString)
    → c.otlp.http_port ≡ d ∷ port
    → c.server.port ≢ d ∷ port
    → WhenBuilt (λ b. Serves c b.modules) (build_ingest o text c t)
build_ingest-Serves o text c t d port e ne =
    WhenBuilt-map (λ b. b.modules ≡ three_modules) (λ b. Serves c b.modules)
      (build_ingest o text c t)
      (λ b m. subst (λ ms. Serves c ms) (sym m) (three_modules-Serves c d port e ne))
      (build_ingest-Makes o text c t)
