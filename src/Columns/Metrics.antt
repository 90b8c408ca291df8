-- ===== src/Columns/Metrics.antt =====
-- The table of metrics and its rows (metrics/mapping.go).
use ingest.Prelude.{GoString, List, [], lit, nat_key, text_key, ◌∷◌}
use ingest.Columns.{
  Assignments, Schema, date_time_column, float64_array_column, float64_cell, float64_column,
  float64s_cell, string_cell, string_column, string_map_cell, string_map_column, time_cell,
  uint32_cell, uint32_column, uint64_array_column, uint64_cell, uint64_column, uint64s_cell,
}
use ingest.Metrics.Row.{MetricRow}

-- `the table of `NewMetricsClickHouseWriter``
abbrev pub metrics_table : GoString
metrics_table = lit "optikk.metrics"

-- `metricsColumns`
unfoldable pub metrics_columns : List GoString
metrics_columns =
    lit "tenant_id"
    ∷ lit "metric_name"
    ∷ lit "temporality"
    ∷ lit "fingerprint"
    ∷ lit "timestamp"
    ∷ lit "value"
    ∷ lit "hist_sum"
    ∷ lit "hist_count"
    ∷ lit "hist_buckets"
    ∷ lit "hist_counts"
    ∷ lit "summary_quantiles"
    ∷ lit "summary_values"
    ∷ lit "service"
    ∷ lit "host"
    ∷ lit "pod"
    ∷ lit "container"
    ∷ lit "k8s_namespace"
    ∷ lit "environment"
    ∷ lit "attributes"
    ∷ lit "cloud_provider"
    ∷ lit "cloud_account"
    ∷ lit "cloud_region"
    ∷ lit "cloud_platform"
    ∷ lit "k8s_node"
    ∷ []

-- `metricsRowValues`: the assignments to `dst`, in order
unfoldable pub metrics_values : {F : Type 0} → MetricRow F → Assignments F
metrics_values r =
    (0, uint32_cell r.tenant_id)
    ∷ (1, string_cell r.metric_name)
    ∷ (2, string_cell r.temporality)
    ∷ (3, uint64_cell r.fingerprint)
    ∷ (4, time_cell r.timestamp_ns)
    ∷ (5, float64_cell r.value)
    ∷ (6, float64_cell r.hist_sum)
    ∷ (7, uint64_cell r.hist_count)
    ∷ (8, float64s_cell r.hist_buckets)
    ∷ (9, uint64s_cell r.hist_counts)
    ∷ (10, float64s_cell r.summary_quantiles)
    ∷ (11, float64s_cell r.summary_values)
    ∷ (12, string_cell r.service)
    ∷ (13, string_cell r.host)
    ∷ (14, string_cell r.pod)
    ∷ (15, string_cell r.container)
    ∷ (16, string_cell r.k8s_namespace)
    ∷ (17, string_cell r.environment)
    ∷ (18, string_map_cell r.attributes)
    ∷ (19, string_cell r.cloud_provider)
    ∷ (20, string_cell r.cloud_account)
    ∷ (21, string_cell r.cloud_region)
    ∷ (22, string_cell r.cloud_platform)
    ∷ (23, string_cell r.k8s_node)
    ∷ []

-- The columns of the table that rows are inserted with, as db/03_metrics.sql declares them, and the
-- value that each of them is meant to hold.
unfoldable pub metrics_schema : {F : Type 0} → MetricRow F → Schema F
metrics_schema r =
    (lit "tenant_id", uint32_column, uint32_cell r.tenant_id)
    ∷ (lit "metric_name", string_column, string_cell r.metric_name)
    ∷ (lit "temporality", string_column, string_cell r.temporality)
    ∷ (lit "fingerprint", uint64_column, uint64_cell r.fingerprint)
    ∷ (lit "timestamp", date_time_column, time_cell r.timestamp_ns)
    ∷ (lit "value", float64_column, float64_cell r.value)
    ∷ (lit "hist_sum", float64_column, float64_cell r.hist_sum)
    ∷ (lit "hist_count", uint64_column, uint64_cell r.hist_count)
    ∷ (lit "hist_buckets", float64_array_column, float64s_cell r.hist_buckets)
    ∷ (lit "hist_counts", uint64_array_column, uint64s_cell r.hist_counts)
    ∷ (lit "summary_quantiles", float64_array_column, float64s_cell r.summary_quantiles)
    ∷ (lit "summary_values", float64_array_column, float64s_cell r.summary_values)
    ∷ (lit "service", string_column, string_cell r.service)
    ∷ (lit "host", string_column, string_cell r.host)
    ∷ (lit "pod", string_column, string_cell r.pod)
    ∷ (lit "container", string_column, string_cell r.container)
    ∷ (lit "k8s_namespace", string_column, string_cell r.k8s_namespace)
    ∷ (lit "environment", string_column, string_cell r.environment)
    ∷ (lit "attributes", string_map_column, string_map_cell r.attributes)
    ∷ (lit "cloud_provider", string_column, string_cell r.cloud_provider)
    ∷ (lit "cloud_account", string_column, string_cell r.cloud_account)
    ∷ (lit "cloud_region", string_column, string_cell r.cloud_region)
    ∷ (lit "cloud_platform", string_column, string_cell r.cloud_platform)
    ∷ (lit "k8s_node", string_column, string_cell r.k8s_node)
    ∷ []
