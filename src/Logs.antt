-- ===== src/Logs.antt =====
-- internal/ingestion/logs/mapper.go and internal/infra/timebucket: from OTLP log requests to rows.
pub mod Resource
pub mod Rows
use ingest.Prelude.{
  Bool, GoString, List, Option, [], false, if◌then◌else◌, leb, length, lit, map, nat_beq, nat_key,
  text_key, true, ℕ, ◌%◌, ◌*◌, ◌++◌, ◌-◌, ◌/◌, ◌^◌, ◌∷◌,
}
use ingest.Prelude.Int.{int_of_uint, negsuc, pos, ℤ}
use ingest.Prelude.Digits.{decimal, hex_fixed}
use ingest.GoMap.{GoMap, at, insert}
use ingest.GoFloat.{GoFloat}
use ingest.GoStrings.{trim_space}
use ingest.GoText.{GoText}
use ingest.Signals.{ResourceUsage, report}
use ingest.Infra.Otlp.{
  AnyValue, GoAny, KeyValue, StringMap, any_value_string, attrs_to_map, bytes_to_hex, typed_attrs,
}
use ingest.Infra.Fingerprint.{ResourceDimensions, resolve_resource}
use ingest.Core.Token.{fnv1a, fnv1a_offset}

abbrev pub ns_per_second : ℕ
ns_per_second = 1_000_000_000

abbrev pub max_log_attributes : ℕ
max_log_attributes = 128

abbrev pub bucket_seconds : ℕ
bucket_seconds = 300

-- `timebucket.BucketStart`, of the seconds of a `uint64` time
unfoldable pub bucket_start : ℕ → ℕ
bucket_start unix_seconds = unix_seconds / bucket_seconds * bucket_seconds % 2 ^ 32

-- `logv1.LogRecord`
pub record LogRecord (F : Type 0) : Type 0 where
  pub time_unix_nano : ℕ
  pub observed_time_unix_nano : ℕ
  pub severity_number : ℤ
  pub severity_text : GoString
  pub body : Option (AnyValue F)
  pub attributes : List (KeyValue F)
  pub flags : ℕ
  pub trace_id : GoString
  pub span_id : GoString

-- `schema.Row`
pub record LogRow (F : Type 0) : Type 0 where
  pub tenant_id : ℕ
  pub ts_bucket : ℕ
  pub timestamp_ns : ℤ
  pub observed_timestamp_ns : ℕ
  pub trace_id : GoString
  pub span_id : GoString
  pub trace_flags : ℕ
  pub severity_text : GoString
  pub severity_number : ℕ
  pub body : GoString
  pub attributes_string : StringMap
  pub attributes_number : GoMap GoString F
  pub attributes_bool : GoMap GoString Bool
  pub resource : StringMap
  pub log_id : GoString
  pub scope_name : GoString
  pub scope_version : GoString
  pub service : GoString
  pub host : GoString
  pub pod : GoString
  pub container : GoString
  pub environment : GoString

abbrev pub resource_fallback_keys : List GoString
resource_fallback_keys =
    lit "service.name" ∷ lit "host.name" ∷ lit "k8s.pod.name" ∷ lit "deployment.environment" ∷ []

-- `resourceContext`
pub record ResourceContext : Type 0 where
  pub res : StringMap
  pub dims : ResourceDimensions
  pub missing : List GoString

-- the loop of `newResourceContext`
unfoldable pub missing_keys : List GoString → StringMap → List GoString
unfolding at
missing_keys [] res = []
missing_keys (k ∷ ks) res = elim (at k res) [
  | [] ↦ k ∷ missing_keys ks res
  | c ∷ s ↦ missing_keys ks res
]

-- `newResourceContext`
unfoldable pub new_resource_context : StringMap → ResourceContext
unfolding missing_keys resolve_resource
new_resource_context resource_map = record {
  res = resource_map;
  dims = resolve_resource resource_map;
  missing = missing_keys resource_fallback_keys resource_map;
}

-- the loop of `resolveResource`: the map, and whether it was patched
unfoldable pub patch : List GoString → StringMap → StringMap → Bool → StringMap × Bool
unfolding at
patch [] attrs res patched = (res, patched)
patch (k ∷ ks) attrs res patched = elim (at k attrs) [
  | [] ↦ patch ks attrs res patched
  | c ∷ v ↦ patch ks attrs (insert k (c ∷ v) res) true
]

-- `resolveResource`
unfoldable pub resolve_log_resource : ResourceContext → StringMap → StringMap × ResourceDimensions
unfolding patch resolve_resource
resolve_log_resource rc attrs =
    let (res, patched) = patch rc.missing attrs rc.res false in
    if patched then (res, resolve_resource res) else (rc.res, rc.dims)

-- `computeLogID`
unfoldable pub compute_log_id : GoString → ℕ → GoString → GoString
unfolding fnv1a
compute_log_id trace_id ts_ns body =
    hex_fixed 16 (fnv1a fnv1a_offset (trace_id ++ 255 ∷ decimal ts_ns ++ 255 ∷ body))

-- the level of a severity number
unfoldable pub severity_level : ℤ → GoString
severity_level (negsuc n) = lit "UNSET"
severity_level (pos n) =
    if leb n 0
    then lit "UNSET"
    else if leb n 4
    then lit "TRACE"
    else if leb n 8
    then lit "DEBUG"
    else if leb n 12
    then lit "INFO"
    else if leb n 16
    then lit "WARN"
    else if leb n 20
    then lit "ERROR"
    else lit "FATAL"

-- `uint32(n)` of an enumeration's number, an `int32`
unfoldable pub uint_of_int : ℤ → ℕ
uint_of_int (pos n) = n
uint_of_int (negsuc n) = 2 ^ 32 - n - 1

-- `if a == 0 { a = b }`
unfoldable pub or_time : ℕ → ℕ → ℕ
or_time a b = if nat_beq a 0 then b else a

module _ (G : GoFloat) (json : GoAny (GoFloat.Float G) → Option GoString) (text : GoText) where
  open G use {Float}

  -- `resolveSeverity`
  unfoldable pub resolve_severity : LogRecord Float → GoString
  unfolding severity_level
  resolve_severity lr = elim (text.to_upper (trim_space lr.severity_text)) [
    | c ∷ s ↦ c ∷ s
    | [] ↦ severity_level lr.severity_number
  ]

  -- `buildLogRow`, without its metric
  unfoldable pub build_log_row :
      ℕ → ResourceContext → GoString → GoString → LogRecord Float → ℕ → LogRow Float
  unfolding or_time bucket_start typed_attrs resolve_log_resource bytes_to_hex any_value_string
      compute_log_id resolve_severity uint_of_int
  build_log_row tenant_id rc scope_name scope_version lr now_ns =
      let ts_ns = or_time (or_time lr.time_unix_nano lr.observed_time_unix_nano) now_ns in
      let t = (typed_attrs G lr.attributes max_log_attributes).0 in
      let (res, dims) = resolve_log_resource rc t.str_map in
      let trace_id = bytes_to_hex lr.trace_id in
      let body = any_value_string G json lr.body in
      record {
        tenant_id = tenant_id % 2 ^ 32;
        ts_bucket = bucket_start (ts_ns / ns_per_second);
        timestamp_ns = int_of_uint ts_ns;
        observed_timestamp_ns = or_time lr.observed_time_unix_nano now_ns;
        trace_id = trace_id;
        span_id = bytes_to_hex lr.span_id;
        trace_flags = lr.flags;
        severity_text = resolve_severity lr;
        severity_number = uint_of_int lr.severity_number;
        body = body;
        attributes_string = t.str_map;
        attributes_number = t.num_map;
        attributes_bool = t.bool_map;
        resource = res;
        log_id = compute_log_id trace_id ts_ns body;
        scope_name = scope_name;
        scope_version = scope_version;
        service = dims.service;
        host = dims.host;
        pod = dims.pod;
        container = dims.container;
        environment = dims.environment;
      }

  -- `logv1.ScopeLogs`: name and version of the scope, empty for a nil one, and its records
  abbrev pub ScopeLogs : Type 0
  ScopeLogs = GoString × GoString × List (LogRecord Float)

  -- the records of one resource
  unfoldable pub append_log_rows :
      ℕ → ResourceContext → ℕ → List ScopeLogs → List (LogRow Float) → List (LogRow Float)
  unfolding build_log_row
  append_log_rows tenant_id rc now_ns [] rows = rows
  append_log_rows tenant_id rc now_ns ((name, version, lrs) ∷ sls) rows =
      append_log_rows tenant_id rc now_ns sls
        (rows ++ map (λ lr. build_log_row tenant_id rc name version lr now_ns) lrs)

  -- `logv1.ResourceLogs`: the attributes of the resource, none for a nil one, and its scopes
  abbrev pub ResourceLogs : Type 0
  ResourceLogs = List (KeyValue Float) × List ScopeLogs

  -- the loop of `mapRequest`, the time read before it
  unfoldable pub map_log_resources :
      ℕ
      → ℕ
      → List ResourceLogs
      → List (LogRow Float)
      → List ResourceUsage
      → List (LogRow Float) × List ResourceUsage
  unfolding attrs_to_map new_resource_context append_log_rows report
  map_log_resources tenant_id now_ns [] rows usage = (rows, usage)
  map_log_resources tenant_id now_ns ((res_attrs, sls) ∷ req) rows usage =
      let rc = new_resource_context (attrs_to_map G json res_attrs) in
      let rows' = append_log_rows tenant_id rc now_ns sls rows in
      map_log_resources tenant_id now_ns req rows'
        (report rc.dims.service rc.dims.environment (length rows' - length rows) usage)

  -- `mapRequest`
  unfoldable pub map_log_request :
      ℕ → ℕ → List ResourceLogs → List (LogRow Float) × List ResourceUsage
  unfolding map_log_resources
  map_log_request tenant_id now_ns req = map_log_resources tenant_id now_ns req [] []
