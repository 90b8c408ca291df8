-- ===== src/Spans/Mapper.antt =====
-- The rows of a trace request (mapper.go).
pub mod Attributes
pub mod Rows
use ingest.Prelude.{
  Bool, GoString, List, Option, [], elem, false, if◌then◌else◌, length, lit, map, nat_beq, nat_key,
  none, not, some, text_key, true, ℕ, ◌%◌, ◌&&◌, ◌++◌, ◌+◌, ◌-◌, ◌==◌, ◌^◌, ◌||◌, ◌∷◌,
}
use ingest.Prelude.Int.{int_of_uint, negsuc, pos, ℤ}
use ingest.GoText.{GoText}
use ingest.GoMap.{at, insert}
use ingest.GoFloat.{GoFloat}
use ingest.Signals.{ResourceUsage, copy_keys, filter_keys, is_empty, report}
use ingest.Infra.Otlp.{
  GoAny, KeyValue, StringMap, attrs_to_map, bytes_to_hex, cap_string_map, first_non_empty,
}
use ingest.Infra.Fingerprint.{ResourceDimensions, resolve_resource}
use ingest.Spans.{
  Span, SpanEvent, SpanLink, SpanStatus, gen_ai_identity_keys, is_promoted_key, max_span_attributes,
  span_duration,
}
use ingest.Spans.Row.{Row, RowSpanEvent, RowSpanLink}
use ingest.Spans.GenAi.{extract_gen_ai}

-- `resourceBaseAttrs`, without its metric
unfoldable pub resource_base_attrs : StringMap → StringMap
unfolding filter_keys is_promoted_key cap_string_map
resource_base_attrs res_map =
    (cap_string_map (filter_keys (λ k. not (is_promoted_key k)) res_map) max_span_attributes).0

-- the closure `keep` of `mergeAndCapAttrs`
unfoldable pub keep : Bool → GoString → Bool
unfolding is_promoted_key
keep gen_ai k = not (is_promoted_key k) && (not gen_ai || not (elem k gen_ai_identity_keys))

-- the loop for `hasOwn`
unfoldable pub has_own : Bool → StringMap → Bool
unfolding keep
has_own gen_ai [] = false
has_own gen_ai ((k, v) ∷ m) = if keep gen_ai k then true else has_own gen_ai m

-- `mergeAndCapAttrs`, without its metric
unfoldable pub merge_and_cap_attrs : StringMap → StringMap → Bool → StringMap
unfolding has_own keep copy_keys cap_string_map
merge_and_cap_attrs base_attrs span_map gen_ai =
    if has_own gen_ai span_map
    then (cap_string_map (copy_keys (keep gen_ai) base_attrs span_map) max_span_attributes).0
    else base_attrs

-- one round of `normalizeMessagingAttrs`
unfoldable pub fill_from_legacy : GoString → List GoString → StringMap → StringMap
unfolding at first_non_empty
fill_from_legacy key legacy span_map = elim (at key span_map) [
  | c ∷ s ↦ span_map
  | [] ↦ elim (first_non_empty span_map legacy) [
    | [] ↦ span_map
    | c ∷ v ↦ insert key (c ∷ v) span_map
  ]
]

-- `legacyMessagingKeys`
abbrev pub legacy_messaging_keys : List (GoString × List GoString)
legacy_messaging_keys =
    (
      lit "messaging.destination.name",
      lit "messaging.source.name" ∷ lit "messaging.destination" ∷ [],
    )
    ∷ (lit "messaging.consumer.group.name", lit "messaging.kafka.consumer.group" ∷ [])
    ∷ []

-- the loop of `normalizeMessagingAttrs`
unfoldable pub fill_all : List (GoString × List GoString) → StringMap → StringMap
unfolding fill_from_legacy
fill_all [] span_map = span_map
fill_all ((key, legacy) ∷ ks) span_map = fill_all ks (fill_from_legacy key legacy span_map)

-- `normalizeMessagingAttrs`: the map after the call
unfoldable pub normalize_messaging_attrs : StringMap → StringMap
unfolding fill_all
normalize_messaging_attrs span_map = fill_all legacy_messaging_keys span_map

module _ (G : GoFloat) (json : GoAny (GoFloat.Float G) → Option GoString) (text : GoText) where
  open G use {Float}

  -- the loop of `exceptionAttrs` from the last event, over the events in order: the attributes
  -- of the last one named "exception"
  unfoldable pub last_exception : List (SpanEvent Float) → Option StringMap
  last_exception [] = none
  last_exception (e ∷ es) = elim (last_exception es) [
    | some m ↦ some m
    | none ↦ if e.name == lit "exception" then some (attrs_to_map G json e.attributes) else none
  ]

  -- `exceptionAttrs`
  unfoldable pub exception_attrs : StringMap → List (SpanEvent Float) → StringMap
  unfolding last_exception at
  exception_attrs span_map events =
      if not (is_empty (at (lit "exception.type") span_map))
        || not (is_empty (at (lit "exception.message") span_map))
      then span_map
      else elim (last_exception events) [ none ↦ span_map | some m ↦ m ]

  -- `serializeEvents`; nil and an empty slice are both `[]`
  unfoldable pub serialize_events : List (SpanEvent Float) → List RowSpanEvent
  serialize_events [] = []
  serialize_events (e ∷ es) =
      record {
        name = e.name;
        time_unix_nano = e.time_unix_nano;
        attributes = attrs_to_map G json e.attributes;
      }
      ∷ serialize_events es

  -- `serializeLinks`
  unfoldable pub serialize_links : List (SpanLink Float) → List RowSpanLink
  serialize_links [] = []
  serialize_links (l ∷ ls) =
      record {
        trace_id = bytes_to_hex l.trace_id;
        span_id = bytes_to_hex l.span_id;
        trace_state = l.trace_state;
        attributes = attrs_to_map G json l.attributes;
      }
      ∷ serialize_links ls

  -- `s.Status` with the defaults of `buildSpanRow`
  unfoldable pub status_of : Option SpanStatus → SpanStatus
  status_of none = record { message = []; code = pos 0 }
  status_of (some st) = st

  -- `statusCode == trace.Status_STATUS_CODE_ERROR`
  unfoldable pub is_error_status : ℤ → Bool
  is_error_status (pos n) = nat_beq n 2
  is_error_status (negsuc n) = false

  -- `buildSpanRow`
  unfoldable pub build_span_row : ℕ → StringMap → ResourceDimensions → Span Float → Row
  unfolding attrs_to_map normalize_messaging_attrs extract_gen_ai merge_and_cap_attrs
      exception_attrs serialize_events serialize_links span_duration status_of bytes_to_hex
  build_span_row tenant_id base_attrs dims s =
      let st = status_of s.status in
      let span_map = normalize_messaging_attrs (attrs_to_map G json s.attributes) in
      let gen = extract_gen_ai text span_map (span_duration s) dims.version in
      let merged = merge_and_cap_attrs base_attrs span_map gen.present in
      let exc = exception_attrs span_map s.events in
      record {
        tenant_id = tenant_id % 2 ^ 32;
        timestamp_ns = int_of_uint s.start_time_unix_nano;
        trace_id = bytes_to_hex s.trace_id;
        span_id = bytes_to_hex s.span_id;
        parent_span_id = bytes_to_hex s.parent_span_id;
        trace_state = s.trace_state;
        flags = s.flags;
        name = s.name;
        kind = s.kind;
        duration_nano = span_duration s;
        has_error = is_error_status st.code;
        status_code = st.code;
        status_message = st.message;
        http_url = first_non_empty span_map (lit "http.url" ∷ lit "url.full" ∷ []);
        http_method = first_non_empty span_map (lit "http.method" ∷ lit "http.request.method" ∷ []);
        http_host = first_non_empty span_map (lit "http.host" ∷ lit "net.host.name" ∷ []);
        response_status_code =
            first_non_empty span_map
              (lit "http.status_code" ∷ lit "http.response.status_code" ∷ []);
        service = dims.service;
        host = dims.host;
        pod = dims.pod;
        service_version = dims.version;
        environment = dims.environment;
        peer_service = at (lit "peer.service") span_map;
        db_system = first_non_empty span_map (lit "db.system" ∷ lit "db.system.name" ∷ []);
        db_name = first_non_empty span_map (lit "db.name" ∷ lit "db.namespace" ∷ []);
        db_statement = first_non_empty span_map (lit "db.statement" ∷ lit "db.query.text" ∷ []);
        http_route = at (lit "http.route") span_map;
        attributes = merged;
        events = serialize_events s.events;
        links = serialize_links s.links;
        exception_type = at (lit "exception.type") exc;
        exception_message = at (lit "exception.message") exc;
        exception_stacktrace = at (lit "exception.stacktrace") exc;
        exception_escaped = at (lit "exception.escaped") exc == lit "true";
        gen_ai = gen;
      }

  -- the spans of one resource: `rs.GetScopeSpans()`, each with its `GetSpans()`
  unfoldable pub append_rows :
      ℕ → StringMap → ResourceDimensions → List (List (Span Float)) → List Row → List Row
  unfolding build_span_row
  append_rows tenant_id base_attrs dims [] rows = rows
  append_rows tenant_id base_attrs dims (ss ∷ scopes) rows =
      append_rows tenant_id base_attrs dims scopes
        (rows ++ map (build_span_row tenant_id base_attrs dims) ss)

  -- `tracepb.ResourceSpans`: the attributes of the resource, none for a nil one, and its scopes
  abbrev pub ResourceSpans : Type 0
  ResourceSpans = List (KeyValue Float) × List (List (Span Float))

  -- the loop of `mapRequest`
  unfoldable pub map_resources :
      ℕ → List ResourceSpans → List Row → List ResourceUsage → List Row × List ResourceUsage
  unfolding append_rows resource_base_attrs resolve_resource report
  map_resources tenant_id [] rows usage = (rows, usage)
  map_resources tenant_id ((res_attrs, scopes) ∷ req) rows usage =
      let res_map = attrs_to_map G json res_attrs in
      let dims = resolve_resource res_map in
      let rows' = append_rows tenant_id (resource_base_attrs res_map) dims scopes rows in
      map_resources tenant_id req rows'
        (report dims.service dims.environment (length rows' - length rows) usage)

  -- the first loop of `mapRequest`
  unfoldable pub scope_count : List (List (Span Float)) → ℕ
  scope_count [] = 0
  scope_count (ss ∷ scopes) = length ss + scope_count scopes

  unfoldable pub span_count : List ResourceSpans → ℕ
  unfolding scope_count
  span_count [] = 0
  span_count ((res_attrs, scopes) ∷ req) = scope_count scopes + span_count req

  -- `mapRequest`
  unfoldable pub map_request : ℕ → List ResourceSpans → List Row × List ResourceUsage
  unfolding map_resources span_count
  map_request tenant_id req =
      if nat_beq (span_count req) 0 then ([], []) else map_resources tenant_id req [] []
