-- ===== src/Spans.antt =====
-- internal/ingestion/spans: from OTLP trace requests to rows (mapper.go, genai.go).
pub mod GenAi
pub mod Row
pub mod Mapper
use ingest.Prelude.{
  Bool, GoString, List, Option, [], elem, if◌then◌else◌, lit, ltb, nat_key, text_key, ℕ, ◌-◌, ◌∷◌,
}
use ingest.Prelude.Int.{ℤ}
use ingest.Infra.Otlp.{KeyValue}

abbrev pub max_span_attributes : ℕ
max_span_attributes = 128

-- `trace.Span_Event`, `trace.Span_Link` and `trace.Status`
pub record SpanEvent (F : Type 0) : Type 0 where
  pub time_unix_nano : ℕ
  pub name : GoString
  pub attributes : List (KeyValue F)

pub record SpanLink (F : Type 0) : Type 0 where
  pub trace_id : GoString
  pub span_id : GoString
  pub trace_state : GoString
  pub attributes : List (KeyValue F)

pub record SpanStatus : Type 0 where
  pub message : GoString
  pub code : ℤ

-- `trace.Span`
pub record Span (F : Type 0) : Type 0 where
  pub trace_id : GoString
  pub span_id : GoString
  pub trace_state : GoString
  pub parent_span_id : GoString
  pub flags : ℕ
  pub name : GoString
  pub kind : ℤ
  pub start_time_unix_nano : ℕ
  pub end_time_unix_nano : ℕ
  pub attributes : List (KeyValue F)
  pub events : List (SpanEvent F)
  pub links : List (SpanLink F)
  -- nil, or a status
  pub status : Option SpanStatus

abbrev pub promoted_span_keys : List GoString
promoted_span_keys =
    lit "http.method"
    ∷ lit "http.request.method"
    ∷ lit "http.url"
    ∷ lit "url.full"
    ∷ lit "http.host"
    ∷ lit "net.host.name"
    ∷ lit "http.status_code"
    ∷ lit "http.response.status_code"
    ∷ lit "exception.type"
    ∷ lit "exception.message"
    ∷ lit "exception.stacktrace"
    ∷ lit "exception.escaped"
    ∷ lit "service.name"
    ∷ lit "host.name"
    ∷ lit "k8s.pod.name"
    ∷ lit "service.version"
    ∷ lit "deployment.environment"
    ∷ lit "peer.service"
    ∷ lit "http.route"
    ∷ lit "db.system"
    ∷ lit "db.system.name"
    ∷ lit "db.name"
    ∷ lit "db.namespace"
    ∷ lit "db.statement"
    ∷ lit "db.query.text"
    ∷ lit "gen_ai.provider.name"
    ∷ lit "gen_ai.system"
    ∷ lit "gen_ai.operation.name"
    ∷ lit "gen_ai.request.model"
    ∷ lit "gen_ai.response.model"
    ∷ lit "gen_ai.usage.input_tokens"
    ∷ lit "gen_ai.usage.output_tokens"
    ∷ lit "gen_ai.usage.prompt_tokens"
    ∷ lit "gen_ai.usage.completion_tokens"
    ∷ lit "gen_ai.prompt"
    ∷ lit "gen_ai.completion"
    ∷ lit "gen_ai.input.messages"
    ∷ lit "gen_ai.output.messages"
    ∷ lit "gen_ai.request.user"
    ∷ lit "langfuse.user.id"
    ∷ lit "gen_ai.conversation.id"
    ∷ lit "langfuse.session.id"
    ∷ lit "langfuse.release"
    ∷ lit "langfuse.trace.tags"
    ∷ lit "optikk.llm.tags"
    ∷ lit "langfuse.prompt.name"
    ∷ lit "optikk.prompt.name"
    ∷ lit "langfuse.prompt.version"
    ∷ lit "optikk.prompt.version"
    ∷ lit "langfuse.observation.type"
    ∷ lit "gen_ai.observation.type"
    ∷ lit "optikk.eval"
    ∷ []

abbrev pub gen_ai_identity_keys : List GoString
gen_ai_identity_keys = lit "user.id" ∷ lit "enduser.id" ∷ lit "session.id" ∷ []

-- `isPromotedKey`, over the map that `buildPromotedKeysMap` fills
unfoldable pub is_promoted_key : GoString → Bool
is_promoted_key k = elem k promoted_span_keys

-- `spanDuration`; the times are `uint64` values
unfoldable pub span_duration : {F : Type 0} → Span F → ℕ
span_duration s =
    if ltb s.start_time_unix_nano s.end_time_unix_nano
    then s.end_time_unix_nano - s.start_time_unix_nano
    else 0
