-- ===== src/Metrics/Row.antt =====
-- The rows of the tables of metrics and series, and `rowAccumulator` of mapper.go.
use ingest.Prelude.{
  Bool, GoString, List, [], elem, if◌then◌else◌, nat_beq, nat_key, text_key, ℕ, ◌++◌, ◌∷◌,
}
use ingest.Prelude.Int.{ℤ}
use ingest.Infra.Otlp.{StringMap}
use ingest.Infra.Fingerprint.{ResourceDimensions}

-- `schema.Row` of the metrics
pub record MetricRow (F : Type 0) : Type 0 where
  pub tenant_id : ℕ
  pub metric_name : GoString
  pub temporality : GoString
  pub fingerprint : ℕ
  pub timestamp_ns : ℤ
  pub value : F
  pub hist_sum : F
  pub hist_count : ℕ
  pub hist_buckets : List F
  pub hist_counts : List ℕ
  pub summary_quantiles : List F
  pub summary_values : List F
  pub service : GoString
  pub host : GoString
  pub pod : GoString
  pub container : GoString
  pub k8s_namespace : GoString
  pub environment : GoString
  pub attributes : StringMap
  pub cloud_provider : GoString
  pub cloud_account : GoString
  pub cloud_region : GoString
  pub cloud_platform : GoString
  pub k8s_node : GoString

-- `SeriesRow`
pub record SeriesRow : Type 0 where
  pub tenant_id : ℕ
  pub fingerprint : ℕ
  pub timestamp_ns : ℤ
  pub metric_name : GoString
  pub metric_type : GoString
  pub temporality : GoString
  pub is_monotonic : Bool
  pub unit : GoString
  pub description : GoString
  pub service : GoString
  pub host : GoString
  pub environment : GoString
  pub k8s_namespace : GoString
  pub pod : GoString
  pub container : GoString
  pub attributes : StringMap
  pub resource_attributes : StringMap

-- `rowHeader`
pub record RowHeader : Type 0 where
  pub tenant_id : ℕ
  pub res_map : StringMap
  pub resource : ResourceDimensions
  pub host_res_attrs : StringMap

-- `rowAccumulator`; `seen` are the keys of the set
pub record RowAccumulator (F : Type 0) : Type 0 where
  pub rows : List (MetricRow F)
  pub series : List SeriesRow
  pub seen : List ℕ

-- `rowAccumulator.add`
unfoldable pub add : {F : Type 0} → RowAccumulator F → MetricRow F × SeriesRow → RowAccumulator F
add acc (row, series) =
    let with_row = record acc { rows = acc.rows ++ row ∷ [] } in
    let fp = series.fingerprint in
    if nat_beq fp 0
    then with_row
    else if elem fp acc.seen
    then with_row
    else record with_row { seen = fp ∷ acc.seen; series = acc.series ++ series ∷ [] }

unfoldable pub add_all :
    {F : Type 0} → RowAccumulator F → List (MetricRow F × SeriesRow) → RowAccumulator F
unfolding add
add_all acc [] = acc
add_all acc (p ∷ ps) = add_all (add acc p) ps
