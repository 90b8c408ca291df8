-- ===== src/Columns/Logs.antt =====
-- The table of logs and its rows (logs/mapping.go).
use ingest.Prelude.{GoString, List, [], lit, nat_key, text_key, ◌%◌, ◌^◌, ◌∷◌}
use ingest.Columns.{
  Assignments, Schema, bool_map_cell, bool_map_column, date_time_column, float64_map_cell,
  float64_map_column, string_cell, string_column, string_map_cell, string_map_column, time_cell,
  uint32_cell, uint32_column, uint64_cell, uint64_column, uint8_cell, uint8_column,
}
use ingest.Logs.{LogRow}

-- `chTableData`
abbrev pub logs_table : GoString
logs_table = lit "optikk.logs"

-- `chColumnsData`
unfoldable pub logs_columns : List GoString
logs_columns =
    lit "tenant_id"
    ∷ lit "ts_bucket"
    ∷ lit "trace_id"
    ∷ lit "log_id"
    ∷ lit "timestamp"
    ∷ lit "service"
    ∷ lit "environment"
    ∷ lit "host"
    ∷ lit "pod"
    ∷ lit "container"
    ∷ lit "severity_text"
    ∷ lit "severity_number"
    ∷ lit "attributes_string"
    ∷ lit "attributes_number"
    ∷ lit "attributes_bool"
    ∷ lit "observed_timestamp"
    ∷ lit "span_id"
    ∷ lit "trace_flags"
    ∷ lit "body"
    ∷ lit "resource"
    ∷ lit "scope_name"
    ∷ lit "scope_version"
    ∷ []

-- `rowDataValues`: the assignments to `dst`, in order
unfoldable pub logs_values : {F : Type 0} → LogRow F → Assignments F
logs_values r =
    (0, uint32_cell r.tenant_id)
    ∷ (1, uint32_cell r.ts_bucket)
    ∷ (2, string_cell r.trace_id)
    ∷ (3, string_cell r.log_id)
    ∷ (4, time_cell r.timestamp_ns)
    ∷ (5, string_cell r.service)
    ∷ (6, string_cell r.environment)
    ∷ (7, string_cell r.host)
    ∷ (8, string_cell r.pod)
    ∷ (9, string_cell r.container)
    ∷ (10, string_cell r.severity_text)
    ∷ (11, uint8_cell (r.severity_number % 2 ^ 8))
    ∷ (12, string_map_cell r.attributes_string)
    ∷ (13, float64_map_cell r.attributes_number)
    ∷ (14, bool_map_cell r.attributes_bool)
    ∷ (15, uint64_cell r.observed_timestamp_ns)
    ∷ (16, string_cell r.span_id)
    ∷ (17, uint32_cell r.trace_flags)
    ∷ (18, string_cell r.body)
    ∷ (19, string_map_cell r.resource)
    ∷ (20, string_cell r.scope_name)
    ∷ (21, string_cell r.scope_version)
    ∷ []

-- The columns of the table that rows are inserted with, as db/02_logs.sql declares them, and the
-- value that each of them is meant to hold.
unfoldable pub logs_schema : {F : Type 0} → LogRow F → Schema F
logs_schema r =
    (lit "tenant_id", uint32_column, uint32_cell r.tenant_id)
    ∷ (lit "ts_bucket", uint32_column, uint32_cell r.ts_bucket)
    ∷ (lit "trace_id", string_column, string_cell r.trace_id)
    ∷ (lit "log_id", string_column, string_cell r.log_id)
    ∷ (lit "timestamp", date_time_column, time_cell r.timestamp_ns)
    ∷ (lit "service", string_column, string_cell r.service)
    ∷ (lit "environment", string_column, string_cell r.environment)
    ∷ (lit "host", string_column, string_cell r.host)
    ∷ (lit "pod", string_column, string_cell r.pod)
    ∷ (lit "container", string_column, string_cell r.container)
    ∷ (lit "severity_text", string_column, string_cell r.severity_text)
    ∷ (lit "severity_number", uint8_column, uint8_cell (r.severity_number % 2 ^ 8))
    ∷ (lit "attributes_string", string_map_column, string_map_cell r.attributes_string)
    ∷ (lit "attributes_number", float64_map_column, float64_map_cell r.attributes_number)
    ∷ (lit "attributes_bool", bool_map_column, bool_map_cell r.attributes_bool)
    ∷ (lit "observed_timestamp", uint64_column, uint64_cell r.observed_timestamp_ns)
    ∷ (lit "span_id", string_column, string_cell r.span_id)
    ∷ (lit "trace_flags", uint32_column, uint32_cell r.trace_flags)
    ∷ (lit "body", string_column, string_cell r.body)
    ∷ (lit "resource", string_map_column, string_map_cell r.resource)
    ∷ (lit "scope_name", string_column, string_cell r.scope_name)
    ∷ (lit "scope_version", string_column, string_cell r.scope_version)
    ∷ []
