-- ===== src/Tests/Grpc.antt =====
-- The interceptors and the counters of gRPC calls, and the routes of the servers, on concrete inputs.
use ingest.Prelude.{
  GoString, Option, [], if◌then◌else◌, lit, nat_key, none, refl, some, text_beq, text_key, ℕ, ◌+◌,
  ◌==◌, ◌∷◌, ◌≡◌, ◌⊎◌,
}
use ingest.Prelude.Int.{pos}
use ingest.GoMap.{insert, lookup}
use ingest.Rpc.{RpcResult, Status, failed, response}
use ingest.Auth.{invalid_api_key, rejected, tenant}
use ingest.Auth.Grpc.{
  Context, Metadata, TenantResolver, WrappedStream, resolve_from_context, stream_interceptor,
  unary_interceptor,
}
use ingest.Auth.Grpc.Intercepted.{Accepts, Refuses, interceptors-Authenticated}
use ingest.App.Built.{WhenBuilt}
use ingest.App.Ingest.{build_ingest}
use ingest.App.GrpcMetrics.{
  GrpcCounters, adjust, enter, gauge, grpc_metrics_stream, grpc_metrics_unary, inc,
}
use ingest.App.GrpcMetrics.Counted.{IsCounted, interceptors-IsCounted}
use ingest.App.Routes.Served.{Serves, build_ingest-Serves}
use ingest.Tests.Samples.{all_well, sample_config, text}

-- A resolver that counts its calls and knows one key.
abbrev resolver : TenantResolver ℕ
resolver key n = (n + 1, if key == lit "k" then tenant 7 else rejected invalid_api_key)

abbrev with_key : Metadata
with_key = some (λ header. lit "k" ∷ [])

abbrev unary_handler : Context → ℕ → ℕ → ℕ × RpcResult ℕ
unary_handler ctx req n = (n, response req)

abbrev stream_handler : WrappedStream ℕ → ℕ → ℕ × Option Status
stream_handler stream n = (n, none)

interceptors-Authenticated_example :
    ((id : ℕ) × (w' : ℕ) × Accepts resolver with_key 0 w' id
      × (unary_interceptor resolver unary_handler with_key 3 0 ≡ unary_handler (some id) 3 w')
      × (stream_interceptor resolver stream_handler with_key 4 0
          ≡ stream_handler (record { stream = 4; ctx = some id }) w'))
    ⊎ ((e : Status) × (w' : ℕ) × Refuses resolver with_key 0 w' e
        × (unary_interceptor resolver unary_handler with_key 3 0 ≡ (w', failed e))
        × (stream_interceptor resolver stream_handler with_key 4 0 ≡ (w', some e)))
interceptors-Authenticated_example =
    interceptors-Authenticated resolver unary_handler stream_handler with_key 3 4 0

accepted : unary_interceptor resolver unary_handler with_key 3 0 ≡ (1, response 3)
unfolding unary_interceptor resolve_from_context lit text_beq
accepted = refl

-- One export is in flight.
abbrev one_begun : GrpcCounters
one_begun = enter (lit "Export") (record { started = []; in_flight = []; handled = [] })

one_in_flight : gauge (lit "Export") one_begun.in_flight ≡ pos 1
unfolding enter adjust inc lookup insert lit text_beq
one_in_flight = refl

abbrev code : Option Status → GoString
code none = lit "OK"
code (some e) = lit "Unavailable"

abbrev counted_unary : ℕ → ℕ × RpcResult ℕ
counted_unary n = (n + 1, response n)

abbrev counted_stream : ℕ → ℕ × Option Status
counted_stream n = (n + 2, none)

interceptors-IsCounted_example :
    let (after, result) = grpc_metrics_unary code (lit "Export") counted_unary one_begun 3 in
    let (after', result') = grpc_metrics_stream code (lit "Export") counted_stream one_begun 3 in
    (result ≡ (4, response 3))
    × IsCounted (lit "Export") (lit "OK") one_begun after
    × (result' ≡ (5, none))
    × IsCounted (lit "Export") (lit "OK") one_begun after'
interceptors-IsCounted_example =
    interceptors-IsCounted code (lit "Export") counted_unary counted_stream one_begun 3

http_port : sample_config.otlp.http_port ≡ 52 ∷ lit "318"
unfolding lit
http_port = refl

build_ingest-Serves_example :
    WhenBuilt (λ b. Serves sample_config b.modules) (build_ingest all_well text sample_config [])
build_ingest-Serves_example =
    build_ingest-Serves all_well text sample_config [] 52 (lit "318") http_port (λ e. cc)
