-- ===== src/Spans/Row.antt =====
-- The rows of the table of spans (schema/span_row.proto).
use ingest.Prelude.{Bool, GoString, List, nat_key, text_key, ℕ}
use ingest.Prelude.Int.{ℤ}
use ingest.Infra.Otlp.{StringMap}
use ingest.Spans.GenAi.{GenAi}

-- `schema.Row_SpanEvent` and `schema.Row_SpanLink`
pub record RowSpanEvent : Type 0 where
  pub name : GoString
  pub time_unix_nano : ℕ
  pub attributes : StringMap

pub record RowSpanLink : Type 0 where
  pub trace_id : GoString
  pub span_id : GoString
  pub trace_state : GoString
  pub attributes : StringMap

-- `schema.Row`
pub record Row : Type 0 where
  pub tenant_id : ℕ
  pub timestamp_ns : ℤ
  pub trace_id : GoString
  pub span_id : GoString
  pub parent_span_id : GoString
  pub trace_state : GoString
  pub flags : ℕ
  pub name : GoString
  pub kind : ℤ
  pub duration_nano : ℕ
  pub has_error : Bool
  pub status_code : ℤ
  pub status_message : GoString
  pub http_url : GoString
  pub http_method : GoString
  pub http_host : GoString
  pub response_status_code : GoString
  pub service : GoString
  pub host : GoString
  pub pod : GoString
  pub service_version : GoString
  pub environment : GoString
  pub peer_service : GoString
  pub db_system : GoString
  pub db_name : GoString
  pub db_statement : GoString
  pub http_route : GoString
  pub attributes : StringMap
  pub events : List RowSpanEvent
  pub links : List RowSpanLink
  pub exception_type : GoString
  pub exception_message : GoString
  pub exception_stacktrace : GoString
  pub exception_escaped : Bool
  -- the GenAI and LLM columns
  pub gen_ai : GenAi
