-- ===== src/Columns/Series.antt =====
-- The table of metric series and its rows (metricseries/mapping.go).
use ingest.Prelude.{GoString, List, [], lit, nat_key, text_key, ◌∷◌}
use ingest.Columns.{
  Assignments, Schema, bool_cell, bool_column, date_time_column, string_cell, string_column,
  string_map_cell, string_map_column, time_cell, uint32_cell, uint32_column, uint64_cell,
  uint64_column,
}
use ingest.Metrics.Row.{SeriesRow}

-- `the table of `NewClickHouseWriter``
abbrev pub series_table : GoString
series_table = lit "optikk.metrics_series"

-- `seriesColumns`
unfoldable pub series_columns : List GoString
series_columns =
    lit "tenant_id"
    ∷ lit "timestamp"
    ∷ lit "metric_name"
    ∷ lit "metric_type"
    ∷ lit "temporality"
    ∷ lit "is_monotonic"
    ∷ lit "unit"
    ∷ lit "description"
    ∷ lit "fingerprint"
    ∷ lit "service"
    ∷ lit "host"
    ∷ lit "environment"
    ∷ lit "k8s_namespace"
    ∷ lit "pod"
    ∷ lit "container"
    ∷ lit "attributes"
    ∷ lit "resource_attributes"
    ∷ []

-- `seriesRowValues`: the assignments to `dst`, in order
unfoldable pub series_values : {F : Type 0} → SeriesRow → Assignments F
series_values r =
    (0, uint32_cell r.tenant_id)
    ∷ (1, time_cell r.timestamp_ns)
    ∷ (2, string_cell r.metric_name)
    ∷ (3, string_cell r.metric_type)
    ∷ (4, string_cell r.temporality)
    ∷ (5, bool_cell r.is_monotonic)
    ∷ (6, string_cell r.unit)
    ∷ (7, string_cell r.description)
    ∷ (8, uint64_cell r.fingerprint)
    ∷ (9, string_cell r.service)
    ∷ (10, string_cell r.host)
    ∷ (11, string_cell r.environment)
    ∷ (12, string_cell r.k8s_namespace)
    ∷ (13, string_cell r.pod)
    ∷ (14, string_cell r.container)
    ∷ (15, string_map_cell r.attributes)
    ∷ (16, string_map_cell r.resource_attributes)
    ∷ []

-- The columns of the table that rows are inserted with, as db/04_metrics_series.sql declares them, and the
-- value that each of them is meant to hold.
unfoldable pub series_schema : {F : Type 0} → SeriesRow → Schema F
series_schema r =
    (lit "tenant_id", uint32_column, uint32_cell r.tenant_id)
    ∷ (lit "timestamp", date_time_column, time_cell r.timestamp_ns)
    ∷ (lit "metric_name", string_column, string_cell r.metric_name)
    ∷ (lit "metric_type", string_column, string_cell r.metric_type)
    ∷ (lit "temporality", string_column, string_cell r.temporality)
    ∷ (lit "is_monotonic", bool_column, bool_cell r.is_monotonic)
    ∷ (lit "unit", string_column, string_cell r.unit)
    ∷ (lit "description", string_column, string_cell r.description)
    ∷ (lit "fingerprint", uint64_column, uint64_cell r.fingerprint)
    ∷ (lit "service", string_column, string_cell r.service)
    ∷ (lit "host", string_column, string_cell r.host)
    ∷ (lit "environment", string_column, string_cell r.environment)
    ∷ (lit "k8s_namespace", string_column, string_cell r.k8s_namespace)
    ∷ (lit "pod", string_column, string_cell r.pod)
    ∷ (lit "container", string_column, string_cell r.container)
    ∷ (lit "attributes", string_map_column, string_map_cell r.attributes)
    ∷ (lit "resource_attributes", string_map_column, string_map_cell r.resource_attributes)
    ∷ []
