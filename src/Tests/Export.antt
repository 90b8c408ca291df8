-- ===== src/Tests/Export.antt =====
-- The export of a request and the scores of spans, on concrete inputs.
use ingest.Tests.Samples.{floats, no_json, text}
use ingest.Spans.Row.{Row}
use ingest.Metrics.Row.{SeriesRow}
use ingest.Prelude.{
  All, List, Option, [], false, length, lit, nat_key, none, refl, some, text_key, true, ℕ, ◌+◌, ◌∷◌,
}
use ingest.Prelude.Int.{pos}
use ingest.Infra.Otlp.{KeyValue, string_value}
use ingest.Core.Async.{new_async_publisher}
use ingest.Stats.{stat_key_order}
use ingest.Spans.{Span, SpanEvent}
use ingest.Spans.Mapper.{map_request}
use ingest.Scores.{extract_from_spans}
use ingest.Scores.Typed.{IsScoreOf, extract_from_spans-IsScoreOf}
use ingest.Export.{DedupKey, Publisher, dedup_key_order, export_otlp, publish_pair}
use ingest.Export.Dedup.{AreFresh, PairOutcome, publish_pair-PairOutcome}
use ingest.Export.Handlers.{SpanHandler, spans_export}
use ingest.Export.Handlers.Effects.{
  Ends, ExportOutcome, export_otlp-ExportOutcome, spans_export-Ends,
}
use ingest.Tests.OneSlot.{one_slot}

abbrev score_event : SpanEvent ℕ
score_event = record {
  time_unix_nano = 3;
  name = lit "langfuse.score";
  attributes =
      record { key = lit "langfuse.score.name"; value = some (string_value (lit "quality")) }
      ∷ record { key = lit "langfuse.score.value"; value = some (string_value (lit "pass")) }
      ∷ [];
}

abbrev span : Span ℕ
span = record {
  trace_id = 1 ∷ [];
  span_id = 2 ∷ [];
  trace_state = [];
  parent_span_id = [];
  flags = 0;
  name = lit "chat";
  kind = pos 2;
  start_time_unix_nano = 10;
  end_time_unix_nano = 15;
  attributes = [];
  events = score_event ∷ [];
  links = [];
  status = none;
}

abbrev request : List (List (KeyValue ℕ) × List (List (Span ℕ)))
request = ([], (span ∷ []) ∷ []) ∷ []

abbrev rows : List Row
rows = (map_request floats no_json text 7 request).0

extract_from_spans-IsScoreOf_example :
    All (IsScoreOf floats text rows) (extract_from_spans floats text rows)
extract_from_spans-IsScoreOf_example = extract_from_spans-IsScoreOf floats text rows

abbrev handler : SpanHandler ℕ ℕ
handler = record { producer = 0; scores = new_async_publisher 4 1; stats = none }

abbrev counting : Publisher Row ℕ
counting rs n = (n + length rs, none)

spans_export-Ends_example :
    let (rs, usage) = map_request floats no_json text 7 request in
    Ends floats no_json text length 3600 7 rs usage 50 handler
      (spans_export floats no_json text length counting 3600 (some 7) request 50 handler)
unfolding new_async_publisher
spans_export-Ends_example =
    spans_export-Ends floats no_json text length counting 3600 7 request 50 handler refl

abbrev failing : Publisher ℕ ℕ
failing rs n = (n, some (lit "down"))

abbrev two_rows : ℕ → List ℕ × ℕ
two_rows t = (t ∷ t ∷ [], 2)

export_otlp-ExportOutcome_example :
    ExportOutcome (some 7) two_rows failing 0 (export_otlp (some 7) two_rows failing 0)
export_otlp-ExportOutcome_example = export_otlp-ExportOutcome (some 7) two_rows failing 0

abbrev series : ℕ → SeriesRow
series fp = record {
  tenant_id = 7;
  fingerprint = fp;
  timestamp_ns = pos 0;
  metric_name = lit "m";
  metric_type = [];
  temporality = [];
  is_monotonic = false;
  unit = [];
  description = [];
  service = [];
  host = [];
  environment = [];
  k8s_namespace = [];
  pod = [];
  container = [];
  attributes = [];
  resource_attributes = [];
}

abbrev count_series : Publisher SeriesRow ℕ
count_series rs n = (n + length rs, none)

abbrev none_known : Option (DedupKey × ℕ)
none_known = none

publish_pair-PairOutcome_example :
    (fresh : List SeriesRow) × AreFresh one_slot 5 none_known (series 3 ∷ []) fresh
    × PairOutcome one_slot true count_series failing 5
        (1 ∷ [])
        fresh
        (none_known, 0, 0)
        (publish_pair one_slot true true 5 count_series failing
          (1 ∷ [])
          (series 3 ∷ [])
          (none_known, 0, 0))
publish_pair-PairOutcome_example =
    publish_pair-PairOutcome one_slot true count_series failing 5 (1 ∷ []) (series 3 ∷ [])
      none_known 0 0
