-- ===== src/Metrics/Mapper.antt =====
-- The rows and the series of a metric request (mapper.go).
pub mod Series
use ingest.Prelude.{
  Bool, GoString, List, Option, [], elem, false, length, lit, map, nat_key, none, some, text_key,
  zero, ℕ, ◌%◌, ◌-◌, ◌^◌, ◌||◌, ◌∷◌,
}
use ingest.Prelude.Int.{int_of_uint}
use ingest.GoMap.{at}
use ingest.GoFloat.{GoFloat}
use ingest.Signals.{ResourceUsage, filter_keys, has_prefix, or_else, report}
use ingest.Infra.Otlp.{GoAny, KeyValue, StringMap, attrs_to_map}
use ingest.Infra.Fingerprint.{resolve_resource, series_hash}
use ingest.Metrics.{
  ExpHistogramPoint, HistogramPoint, Metric, NumberPoint, SummaryPoint, exp_buckets_to_explicit,
  exponential_histogram, gauge, histogram, number_value, sum_data, summary, temporality_string,
  unsupported,
}
use ingest.Metrics.Row.{MetricRow, RowAccumulator, RowHeader, SeriesRow, add_all}
use ingest.Metrics.Normalize.{normalize_attrs}

-- the test of `hostResourceAttrs`, over `hostResourceAttrKeys`
unfoldable pub is_host_attr : GoString → Bool
is_host_attr k =
    elem k (lit "k8s.node.name" ∷ lit "k8s.cluster.name" ∷ [])
    || has_prefix k (lit "os.")
    || has_prefix k (lit "host.")
    || has_prefix k (lit "cloud.")

-- `hostResourceAttrs`; nil is the empty map
unfoldable pub host_resource_attrs : StringMap → StringMap
unfolding filter_keys is_host_attr
host_resource_attrs res_map = filter_keys is_host_attr res_map

module _ (G : GoFloat) (json : GoAny (GoFloat.Float G) → Option GoString)
    (sum64 : GoString → ℕ) where
  open G use {Float}

  -- `scalarRow`; `sum64` is the digest of `SeriesHash`
  unfoldable pub scalar_row :
      RowHeader
      → Metric Float
      → GoString
      → GoString
      → Bool
      → ℕ
      → StringMap
      → Float
      → MetricRow Float × SeriesRow
  unfolding normalize_attrs series_hash or_else
  scalar_row hdr m metric_type temporality is_monotonic time attrs value =
      let attrs' = normalize_attrs m.name attrs in
      let fp = series_hash sum64 m.name temporality hdr.res_map attrs' in
      (
        record {
          tenant_id = hdr.tenant_id;
          metric_name = m.name;
          temporality = temporality;
          fingerprint = fp;
          timestamp_ns = int_of_uint time;
          value = value;
          hist_sum = G.zero;
          hist_count = 0;
          hist_buckets = [];
          hist_counts = [];
          summary_quantiles = [];
          summary_values = [];
          service = hdr.resource.service;
          host = hdr.resource.host;
          pod = hdr.resource.pod;
          container = hdr.resource.container;
          k8s_namespace = hdr.resource.namespace;
          environment = hdr.resource.environment;
          attributes = attrs';
          cloud_provider = at (lit "cloud.provider") hdr.res_map;
          cloud_account = at (lit "cloud.account.id") hdr.res_map;
          cloud_region =
              or_else (at (lit "cloud.region") hdr.res_map) (at (lit "aws.region") hdr.res_map);
          cloud_platform = at (lit "cloud.platform") hdr.res_map;
          k8s_node = at (lit "k8s.node.name") hdr.res_map;
        },
        record {
          tenant_id = hdr.tenant_id;
          fingerprint = fp;
          timestamp_ns = int_of_uint time;
          metric_name = m.name;
          metric_type = metric_type;
          temporality = temporality;
          is_monotonic = is_monotonic;
          unit = m.unit;
          description = m.description;
          service = hdr.resource.service;
          host = hdr.resource.host;
          environment = hdr.resource.environment;
          k8s_namespace = hdr.resource.namespace;
          pod = hdr.resource.pod;
          container = hdr.resource.container;
          attributes = attrs';
          resource_attributes = hdr.host_res_attrs;
        },
      )

  -- `gaugeRow`
  unfoldable pub gauge_row :
      RowHeader → Metric Float → NumberPoint Float → MetricRow Float × SeriesRow
  unfolding scalar_row attrs_to_map number_value
  gauge_row hdr m dp =
      scalar_row hdr m (lit "Gauge") (lit "Unspecified") false dp.time_unix_nano
        (attrs_to_map G json dp.attributes) (number_value G dp)

  -- `sumRow`
  unfoldable pub sum_row :
      RowHeader → Metric Float → GoString → Bool → NumberPoint Float → MetricRow Float × SeriesRow
  unfolding scalar_row attrs_to_map number_value
  sum_row hdr m temporality is_mono dp =
      scalar_row hdr m (lit "Sum") temporality is_mono dp.time_unix_nano
        (attrs_to_map G json dp.attributes) (number_value G dp)

  -- `if dp.Sum != nil { row.HistSum = *dp.Sum }`
  unfoldable pub sum_or : Option Float → Float → Float
  sum_or none x = x
  sum_or (some s) x = s

  -- `histogramRow`
  unfoldable pub histogram_row :
      RowHeader → Metric Float → GoString → HistogramPoint Float → MetricRow Float × SeriesRow
  unfolding scalar_row attrs_to_map sum_or
  histogram_row hdr m temporality dp =
      let (row, series) =
        scalar_row hdr m (lit "Histogram") temporality false dp.time_unix_nano
          (attrs_to_map G json dp.attributes) G.zero in
      (
        record row {
          hist_sum = sum_or dp.sum row.hist_sum;
          hist_count = dp.count;
          hist_buckets = dp.explicit_bounds;
          hist_counts = dp.bucket_counts;
        },
        series,
      )

  -- `expHistogramRow`
  unfoldable pub exp_histogram_row :
      RowHeader → Metric Float → GoString → ExpHistogramPoint Float → MetricRow Float × SeriesRow
  unfolding scalar_row attrs_to_map sum_or exp_buckets_to_explicit
  exp_histogram_row hdr m temporality dp =
      let (row, series) =
        scalar_row hdr m (lit "ExponentialHistogram") temporality false dp.time_unix_nano
          (attrs_to_map G json dp.attributes) G.zero in
      let (bounds, counts) = exp_buckets_to_explicit G dp in
      (
        record row {
          hist_sum = sum_or dp.sum row.hist_sum;
          hist_count = dp.count;
          hist_buckets = bounds;
          hist_counts = counts;
        },
        series,
      )

  -- `summaryRow`
  unfoldable pub summary_row :
      RowHeader → Metric Float → SummaryPoint Float → MetricRow Float × SeriesRow
  unfolding scalar_row attrs_to_map
  summary_row hdr m dp =
      let (row, series) =
        scalar_row hdr m (lit "Summary") (lit "Cumulative") false dp.time_unix_nano
          (attrs_to_map G json dp.attributes) G.zero in
      (
        record row {
          hist_sum = dp.sum;
          hist_count = dp.count;
          summary_quantiles = map (λ q. q.0) dp.quantile_values;
          summary_values = map (λ q. q.1) dp.quantile_values;
        },
        series,
      )

  -- `appendMetric`, without its metric
  unfoldable pub append_metric :
      RowAccumulator Float → RowHeader → Metric Float → RowAccumulator Float
  unfolding add_all temporality_string gauge_row sum_row histogram_row exp_histogram_row summary_row
  append_metric acc hdr m = elim m.data_ [
    | gauge dps ↦ add_all acc (map (gauge_row hdr m) dps)
    | sum_data t mono dps ↦ add_all acc (map (sum_row hdr m (temporality_string t) mono) dps)
    | histogram t dps ↦ add_all acc (map (histogram_row hdr m (temporality_string t)) dps)
    | exponential_histogram t dps ↦
        add_all acc (map (exp_histogram_row hdr m (temporality_string t)) dps)
    | summary dps ↦ add_all acc (map (summary_row hdr m) dps)
    | unsupported ↦ acc
  ]

  unfoldable pub append_metrics :
      RowAccumulator Float → RowHeader → List (Metric Float) → RowAccumulator Float
  unfolding append_metric
  append_metrics acc hdr [] = acc
  append_metrics acc hdr (m ∷ ms) = append_metrics (append_metric acc hdr m) hdr ms

  -- the loop over the scopes of a resource
  unfoldable pub append_scopes :
      RowAccumulator Float → RowHeader → List (List (Metric Float)) → RowAccumulator Float
  unfolding append_metrics
  append_scopes acc hdr [] = acc
  append_scopes acc hdr (sm ∷ sms) = append_scopes (append_metrics acc hdr sm) hdr sms

  -- the header of a resource
  unfoldable pub row_header : ℕ → StringMap → RowHeader
  unfolding resolve_resource host_resource_attrs
  row_header tenant_id res_map = record {
    tenant_id = tenant_id % 2 ^ 32;
    res_map = res_map;
    resource = resolve_resource res_map;
    host_res_attrs = host_resource_attrs res_map;
  }

  -- `ResourceMetrics`: the attributes of the resource, none for a nil one, and its scopes
  abbrev pub ResourceMetrics : Type 0
  ResourceMetrics = List (KeyValue Float) × List (List (Metric Float))

  -- the loop of `mapRequest`
  unfoldable pub map_metric_resources :
      ℕ
      → List ResourceMetrics
      → RowAccumulator Float
      → List ResourceUsage
      → RowAccumulator Float × List ResourceUsage
  unfolding row_header append_scopes report
  map_metric_resources tenant_id [] acc usage = (acc, usage)
  map_metric_resources tenant_id ((res_attrs, sms) ∷ req) acc usage =
      let hdr = row_header tenant_id (attrs_to_map G json res_attrs) in
      let acc' = append_scopes acc hdr sms in
      map_metric_resources tenant_id req acc' (
        report hdr.resource.service hdr.resource.environment (length acc'.rows - length acc.rows)
          usage)

  -- `mapRequest`
  unfoldable pub map_metric_request :
      ℕ → List ResourceMetrics → List (MetricRow Float) × List SeriesRow × List ResourceUsage
  unfolding map_metric_resources
  map_metric_request tenant_id req =
      let (acc, usage) =
        map_metric_resources tenant_id req (record { rows = []; series = []; seen = [] }) [] in
      (acc.rows, acc.series, usage)
