-- ===== src/App/Routes.antt =====
-- What the servers serve: transport.go, health.go and registry.go of internal/app, and module.go of
-- the signals.
pub mod Served
use ingest.Prelude.{
  GoString, List, Option, [], if◌then◌else◌, lit, nat_key, none, some, text_key, ℕ, ◌==◌, ◌∷◌,
}
use ingest.GoMap.{GoMap, insert, lookup}
use ingest.Config.{Config}
use ingest.Kafka.Signal.{signal_logs, signal_metrics, signal_spans}

-- what answers a request: the metrics page, the health check, or the export of a signal
pub data HttpHandler : Type 0 where
  metrics_page : HttpHandler
  health : HttpHandler
  otlp_export : GoString → HttpHandler

-- `http.ServeMux` with patterns that are paths
abbrev pub Mux : Type 0
Mux = GoMap GoString HttpHandler

-- `Handle`, which panics on a pattern that is known already
unfoldable pub handle : GoString → HttpHandler → Mux → Option Mux
unfolding insert
handle pattern h mux = elim (lookup pattern mux) [
  | none ↦ some (insert pattern h mux)
  | some _ ↦ none
]

-- A module is named by its signal. `none` is no `RegisterOTLPHTTP`.
unfoldable pub otlp_pattern : GoString → Option GoString
otlp_pattern signal =
    if signal == signal_spans
    then some (lit "/v1/traces")
    else if signal == signal_logs
    then some (lit "/v1/logs")
    else if signal == signal_metrics
    then some (lit "/v1/metrics")
    else none

-- the loop that registers the modules
unfoldable pub register_otlp_http : List GoString → Mux → Option Mux
unfolding handle otlp_pattern
register_otlp_http [] mux = some mux
register_otlp_http (signal ∷ signals) mux = elim (otlp_pattern signal) [
  | none ↦ register_otlp_http signals mux
  | some pattern ↦ elim (handle pattern (otlp_export signal) mux) [
    | none ↦ none
    | some mux' ↦ register_otlp_http signals mux'
  ]
]

-- the mux of the first server
unfoldable pub health_mux : Option Mux
unfolding handle
health_mux = elim (handle (lit "/metrics") metrics_page []) [
  | none ↦ none
  | some m1 ↦ elim (handle (lit "/health") health m1) [
    | none ↦ none
    | some m2 ↦ elim (handle (lit "/health/live") health m2) [
      | none ↦ none
      | some m3 ↦ handle (lit "/health/ready") health m3
    ]
  ]
]

-- `http.Server`; the times are in seconds
pub record HttpServer : Type 0 where
  pub addr : GoString
  pub mux : Mux
  pub read_timeout : ℕ
  pub write_timeout : ℕ
  pub idle_timeout : ℕ

abbrev pub http_server : GoString → Mux → HttpServer
http_server port mux = record {
  addr = 58 ∷ port;
  mux = mux;
  read_timeout = 30;
  write_timeout = 60;
  idle_timeout = 120;
}

-- `addHTTPServerActor`: the servers that it adds; `none` is a panic
unfoldable pub add_http_servers : Config → List GoString → Option (List HttpServer)
unfolding register_otlp_http health_mux
add_http_servers c modules = elim health_mux [
  | none ↦ none
  | some own ↦ elim c.otlp.http_port [
    | [] ↦ some (http_server c.server.port own ∷ [])
    | d ∷ port ↦ elim (register_otlp_http modules []) [
      | none ↦ none
      | some otlp ↦ some (http_server c.server.port own ∷ http_server (d ∷ port) otlp ∷ [])
    ]
  ]
]

-- what a mux answers a path with
abbrev pub answers : List HttpServer → GoString → GoString → Option HttpHandler
answers [] addr path = none
answers (s ∷ ss) addr path = if s.addr == addr then lookup path s.mux else answers ss addr path
