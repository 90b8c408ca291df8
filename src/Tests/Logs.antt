-- ===== src/Tests/Logs.antt =====
-- internal/ingestion/logs and internal/ingestion/metrics on concrete inputs.

use ingest.Tests.Samples.{attribute, floats, no_json}
use ingest.Prelude.{
  Distinct, GoString, List, [], elem, if◌then◌else◌, length, lit, nat_beq, nat_key, none, not,
  text_key, ℕ, ◌&&◌, ◌∷◌, ◌≡◌,
}
use ingest.Prelude.Int.{pos}
use ingest.GoMap.{at}
use ingest.Signals.{is_empty}
use ingest.Infra.Otlp.{KeyValue, StringMap}
use ingest.Infra.Fingerprint.{resolve_resource}
use ingest.Logs.{LogRecord, new_resource_context, resolve_log_resource, resource_fallback_keys}
use ingest.Logs.Resource.{resolve_log_resource_lem}
use ingest.Metrics.{ExpHistogramPoint, Metric, NumberPoint, as_double, gauge}
use ingest.Metrics.Mapper.{map_metric_request}
use ingest.Metrics.Mapper.Series.{fingerprints, map_metric_request-series, row_fingerprints}

abbrev log : LogRecord ℕ
log = record {
  time_unix_nano = 0;
  observed_time_unix_nano = 9;
  severity_number = pos 17;
  severity_text = [];
  body = none;
  attributes = attribute (lit "service.name") (lit "shop") ∷ [];
  flags = 0;
  trace_id = [];
  span_id = [];
}

abbrev logs : List (List (KeyValue ℕ) × List (GoString × GoString × List (LogRecord ℕ)))
logs = ([], (lit "scope", [], log ∷ log ∷ []) ∷ []) ∷ []

abbrev host_only : StringMap
host_only = (lit "host.name", lit "h") ∷ []

abbrev from_record : StringMap
from_record = (lit "service.name", lit "shop") ∷ (lit "host.name", lit "g") ∷ []

resolve_log_resource_lem_example :
    let r = resolve_log_resource (new_resource_context host_only) from_record in
    (r.1 ≡ resolve_resource r.0)
    × ((a : GoString)
        → at a r.0 ≡ (
            if elem a resource_fallback_keys
              && is_empty (at a host_only)
              && not (is_empty (at a from_record))
            then at a from_record
            else at a host_only))
resolve_log_resource_lem_example = resolve_log_resource_lem host_only from_record

abbrev point : ExpHistogramPoint ℕ
point = record {
  time_unix_nano = 5;
  attributes = [];
  sum = none;
  count = 6;
  scale = pos 0;
  zero_count = 1;
  offset = pos 2;
  bucket_counts = 2 ∷ 3 ∷ [];
}

abbrev number : NumberPoint ℕ
number = record { time_unix_nano = 5; attributes = []; value = as_double 3 }

abbrev metric : Metric ℕ
metric = record {
  name = lit "kafka.lag";
  unit = [];
  description = [];
  data_ = gauge (number ∷ number ∷ []);
}

abbrev metrics : List (List (KeyValue ℕ) × List (List (Metric ℕ)))
metrics = ([], (metric ∷ []) ∷ []) ∷ []

map_metric_request-series_example :
    let r = map_metric_request floats no_json length 7 metrics in
    Distinct (fingerprints r.1)
    × ((a : ℕ) → elem a (fingerprints r.1) ≡ (elem a (row_fingerprints r.0) && not (nat_beq a 0)))
map_metric_request-series_example = map_metric_request-series floats no_json length 7 metrics
