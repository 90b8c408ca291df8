-- ===== src/Columns/Spans.antt =====
-- The table of spans and its rows (spans/mapping.go).
use ingest.Prelude.{GoString, List, [], lit, nat_key, text_key, ◌∷◌}
use ingest.Prelude.Int.{wrap_int}
use ingest.Columns.{
  Assignments, Schema, bool_cell, bool_column, date_time_column, event_array_column, events_cell,
  int16_cell, int16_column, int8_cell, int8_column, link_array_column, links_cell,
  string_array_column, string_cell, string_column, string_map_cell, string_map_column, strings_cell,
  time_cell, uint32_cell, uint32_column, uint64_cell, uint64_column,
}
use ingest.Spans.Row.{Row}

-- `chTable`
abbrev pub spans_table : GoString
spans_table = lit "optikk.spans"

-- `chColumns`
unfoldable pub spans_columns : List GoString
spans_columns =
    lit "tenant_id"
    ∷ lit "timestamp"
    ∷ lit "trace_id"
    ∷ lit "span_id"
    ∷ lit "parent_span_id"
    ∷ lit "trace_state"
    ∷ lit "flags"
    ∷ lit "name"
    ∷ lit "kind"
    ∷ lit "duration_nano"
    ∷ lit "has_error"
    ∷ lit "status_code"
    ∷ lit "status_message"
    ∷ lit "http_url"
    ∷ lit "http_method"
    ∷ lit "http_host"
    ∷ lit "response_status_code"
    ∷ lit "service"
    ∷ lit "host"
    ∷ lit "pod"
    ∷ lit "service_version"
    ∷ lit "environment"
    ∷ lit "peer_service"
    ∷ lit "db_system"
    ∷ lit "db_name"
    ∷ lit "db_statement"
    ∷ lit "http_route"
    ∷ lit "attributes"
    ∷ lit "events"
    ∷ lit "links"
    ∷ lit "exception_type"
    ∷ lit "exception_message"
    ∷ lit "exception_stacktrace"
    ∷ lit "exception_escaped"
    ∷ lit "gen_ai_system"
    ∷ lit "gen_ai_operation"
    ∷ lit "gen_ai_request_model"
    ∷ lit "gen_ai_response_model"
    ∷ lit "gen_ai_input_tokens"
    ∷ lit "gen_ai_output_tokens"
    ∷ lit "is_gen_ai"
    ∷ lit "gen_ai_prompt"
    ∷ lit "gen_ai_completion"
    ∷ lit "llm_user_id"
    ∷ lit "llm_session_id"
    ∷ lit "llm_tags"
    ∷ lit "llm_release"
    ∷ lit "llm_prompt_name"
    ∷ lit "llm_prompt_version"
    ∷ lit "gen_ai_span_kind"
    ∷ []

-- `rowValues`: the assignments to `dst`, in order
unfoldable pub spans_values : {F : Type 0} → Row → Assignments F
spans_values r =
    (0, uint32_cell r.tenant_id)
    ∷ (1, time_cell r.timestamp_ns)
    ∷ (2, string_cell r.trace_id)
    ∷ (3, string_cell r.span_id)
    ∷ (4, string_cell r.parent_span_id)
    ∷ (5, string_cell r.trace_state)
    ∷ (6, uint32_cell r.flags)
    ∷ (7, string_cell r.name)
    ∷ (8, int8_cell (wrap_int 8 r.kind))
    ∷ (9, uint64_cell r.duration_nano)
    ∷ (10, bool_cell r.has_error)
    ∷ (11, int16_cell (wrap_int 16 r.status_code))
    ∷ (12, string_cell r.status_message)
    ∷ (13, string_cell r.http_url)
    ∷ (14, string_cell r.http_method)
    ∷ (15, string_cell r.http_host)
    ∷ (16, string_cell r.response_status_code)
    ∷ (17, string_cell r.service)
    ∷ (18, string_cell r.host)
    ∷ (19, string_cell r.pod)
    ∷ (20, string_cell r.service_version)
    ∷ (21, string_cell r.environment)
    ∷ (22, string_cell r.peer_service)
    ∷ (23, string_cell r.db_system)
    ∷ (24, string_cell r.db_name)
    ∷ (25, string_cell r.db_statement)
    ∷ (26, string_cell r.http_route)
    ∷ (27, string_map_cell r.attributes)
    ∷ (28, events_cell r.events)
    ∷ (29, links_cell r.links)
    ∷ (30, string_cell r.exception_type)
    ∷ (31, string_cell r.exception_message)
    ∷ (32, string_cell r.exception_stacktrace)
    ∷ (33, bool_cell r.exception_escaped)
    ∷ (34, string_cell r.gen_ai.system)
    ∷ (35, string_cell r.gen_ai.operation)
    ∷ (36, string_cell r.gen_ai.request_model)
    ∷ (37, string_cell r.gen_ai.response_model)
    ∷ (38, uint64_cell r.gen_ai.input_tokens)
    ∷ (39, uint64_cell r.gen_ai.output_tokens)
    ∷ (40, bool_cell r.gen_ai.present)
    ∷ (41, string_cell r.gen_ai.prompt)
    ∷ (42, string_cell r.gen_ai.completion)
    ∷ (43, string_cell r.gen_ai.user_id)
    ∷ (44, string_cell r.gen_ai.session_id)
    ∷ (45, strings_cell r.gen_ai.tags)
    ∷ (46, string_cell r.gen_ai.release)
    ∷ (47, string_cell r.gen_ai.prompt_name)
    ∷ (48, uint32_cell r.gen_ai.prompt_version)
    ∷ (49, string_cell r.gen_ai.span_kind)
    ∷ []

-- The columns of the table that rows are inserted with, as db/01_spans.sql declares them, and the
-- value that each of them is meant to hold.
unfoldable pub spans_schema : {F : Type 0} → Row → Schema F
spans_schema r =
    (lit "tenant_id", uint32_column, uint32_cell r.tenant_id)
    ∷ (lit "timestamp", date_time_column, time_cell r.timestamp_ns)
    ∷ (lit "trace_id", string_column, string_cell r.trace_id)
    ∷ (lit "span_id", string_column, string_cell r.span_id)
    ∷ (lit "parent_span_id", string_column, string_cell r.parent_span_id)
    ∷ (lit "trace_state", string_column, string_cell r.trace_state)
    ∷ (lit "flags", uint32_column, uint32_cell r.flags)
    ∷ (lit "name", string_column, string_cell r.name)
    ∷ (lit "kind", int8_column, int8_cell (wrap_int 8 r.kind))
    ∷ (lit "duration_nano", uint64_column, uint64_cell r.duration_nano)
    ∷ (lit "has_error", bool_column, bool_cell r.has_error)
    ∷ (lit "status_code", int16_column, int16_cell (wrap_int 16 r.status_code))
    ∷ (lit "status_message", string_column, string_cell r.status_message)
    ∷ (lit "http_url", string_column, string_cell r.http_url)
    ∷ (lit "http_method", string_column, string_cell r.http_method)
    ∷ (lit "http_host", string_column, string_cell r.http_host)
    ∷ (lit "response_status_code", string_column, string_cell r.response_status_code)
    ∷ (lit "service", string_column, string_cell r.service)
    ∷ (lit "host", string_column, string_cell r.host)
    ∷ (lit "pod", string_column, string_cell r.pod)
    ∷ (lit "service_version", string_column, string_cell r.service_version)
    ∷ (lit "environment", string_column, string_cell r.environment)
    ∷ (lit "peer_service", string_column, string_cell r.peer_service)
    ∷ (lit "db_system", string_column, string_cell r.db_system)
    ∷ (lit "db_name", string_column, string_cell r.db_name)
    ∷ (lit "db_statement", string_column, string_cell r.db_statement)
    ∷ (lit "http_route", string_column, string_cell r.http_route)
    ∷ (lit "attributes", string_map_column, string_map_cell r.attributes)
    ∷ (lit "gen_ai_system", string_column, string_cell r.gen_ai.system)
    ∷ (lit "gen_ai_operation", string_column, string_cell r.gen_ai.operation)
    ∷ (lit "gen_ai_request_model", string_column, string_cell r.gen_ai.request_model)
    ∷ (lit "gen_ai_response_model", string_column, string_cell r.gen_ai.response_model)
    ∷ (lit "gen_ai_input_tokens", uint64_column, uint64_cell r.gen_ai.input_tokens)
    ∷ (lit "gen_ai_output_tokens", uint64_column, uint64_cell r.gen_ai.output_tokens)
    ∷ (lit "is_gen_ai", bool_column, bool_cell r.gen_ai.present)
    ∷ (lit "gen_ai_prompt", string_column, string_cell r.gen_ai.prompt)
    ∷ (lit "gen_ai_completion", string_column, string_cell r.gen_ai.completion)
    ∷ (lit "gen_ai_span_kind", string_column, string_cell r.gen_ai.span_kind)
    ∷ (lit "llm_user_id", string_column, string_cell r.gen_ai.user_id)
    ∷ (lit "llm_session_id", string_column, string_cell r.gen_ai.session_id)
    ∷ (lit "llm_tags", string_array_column, strings_cell r.gen_ai.tags)
    ∷ (lit "llm_release", string_column, string_cell r.gen_ai.release)
    ∷ (lit "llm_prompt_name", string_column, string_cell r.gen_ai.prompt_name)
    ∷ (lit "llm_prompt_version", uint32_column, uint32_cell r.gen_ai.prompt_version)
    ∷ (lit "events", event_array_column, events_cell r.events)
    ∷ (lit "links", link_array_column, links_cell r.links)
    ∷ (lit "exception_type", string_column, string_cell r.exception_type)
    ∷ (lit "exception_message", string_column, string_cell r.exception_message)
    ∷ (lit "exception_stacktrace", string_column, string_cell r.exception_stacktrace)
    ∷ (lit "exception_escaped", bool_column, bool_cell r.exception_escaped)
    ∷ []
