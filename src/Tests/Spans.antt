-- ===== src/Tests/Spans.antt =====
-- internal/ingestion/spans on concrete inputs.

use ingest.Tests.Samples.{attribute, floats, no_json, text}
use ingest.Prelude.{List, [], lit, nat_key, none, text_key, ℕ, ◌∷◌}
use ingest.Prelude.Int.{pos}
use ingest.Infra.Otlp.{KeyValue, attrs_to_map}
use ingest.Infra.Fingerprint.{resolve_resource}
use ingest.Spans.{Span}
use ingest.Spans.Mapper.{
  build_span_row, map_request, normalize_messaging_attrs, resource_base_attrs, span_count,
}
use ingest.Spans.Mapper.Attributes.{AreAttributes}
use ingest.Spans.Mapper.Rows.{Counted, build_span_row-AreAttributes, map_request-Counted}

abbrev span : Span ℕ
span = record {
  trace_id = 1 ∷ [];
  span_id = 2 ∷ [];
  trace_state = [];
  parent_span_id = 0 ∷ [];
  flags = 0;
  name = lit "GET";
  kind = pos 2;
  start_time_unix_nano = 10;
  end_time_unix_nano = 15;
  attributes = attribute (lit "http.method") (lit "GET") ∷ attribute (lit "a") (lit "1") ∷ [];
  events = [];
  links = [];
  status = none;
}

abbrev request : List (List (KeyValue ℕ) × List (List (Span ℕ)))
request =
    (attribute (lit "service.name") (lit "shop") ∷ [], (span ∷ span ∷ []) ∷ (span ∷ []) ∷ []) ∷ []

build_span_row-AreAttributes_example :
    let res = attrs_to_map floats no_json (attribute (lit "b") (lit "2") ∷ []) in
    let row =
      build_span_row floats no_json text 7 (resource_base_attrs res) (resolve_resource res) span in
    AreAttributes row.gen_ai.present res
      (normalize_messaging_attrs (attrs_to_map floats no_json span.attributes))
      row.attributes
build_span_row-AreAttributes_example =
    build_span_row-AreAttributes floats no_json text 7 (attribute (lit "b") (lit "2") ∷ []) span

map_request-Counted_example :
    Counted floats no_json text
      (span_count floats no_json text request)
      (map_request floats no_json text 7 request)
map_request-Counted_example = map_request-Counted floats no_json text 7 request
