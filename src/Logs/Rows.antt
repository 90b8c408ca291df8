-- ===== src/Logs/Rows.antt =====
-- The rows of a log request and the usage that is reported with them.
use ingest.Prelude.{
  GoString, List, Option, [], arith, length, length-append, length-map, map, nat_key, refl,
  text_key, ℕ, ◌%◌, ◌++◌, ◌+◌, ◌-◌, ◌<◌, ◌^◌, ◌∷◌, ◌≡◌, ◌≤◌,
}
use ingest.GoFloat.{GoFloat}
use ingest.GoText.{GoText}
use ingest.Signals.{AreUsed, ResourceUsage, report, total_records, total_records-report}
use ingest.Infra.Otlp.{GoAny, attrs_to_map}
use ingest.Logs.{
  LogRecord, LogRow, ResourceContext, ResourceLogs, ScopeLogs, append_log_rows, bucket_start,
  build_log_row, map_log_request, map_log_resources, new_resource_context,
}

-- The bucket of a time below 2 ^ 32 seconds is a multiple of 300 s, at most the time, and less
-- than 300 s before it.
pub bucket_start-IsBucket :
    (secs : ℕ)
    → secs < 2 ^ 32
    → (bucket_start secs % 300 ≡ 0) × (bucket_start secs ≤ secs) × (secs < bucket_start secs + 300)
unfolding bucket_start
bucket_start-IsBucket secs h = (omega arith, omega arith, omega arith)

module _ (G : GoFloat) (json : GoAny (GoFloat.Float G) → Option GoString) (text : GoText) where
  open G use {Float}

  -- the records of the scopes, and of a request
  abbrev log_count : List (ScopeLogs G json text) → ℕ
  log_count [] = 0
  log_count ((name, version, lrs) ∷ sls) = length lrs + log_count sls

  abbrev pub record_count : List (ResourceLogs G json text) → ℕ
  record_count [] = 0
  record_count ((res_attrs, sls) ∷ req) = log_count sls + record_count req

  length-append_log_rows :
      (tenant_id : ℕ) (rc : ResourceContext) (now_ns : ℕ) (sls : List (ScopeLogs G json text))
      (rows : List (LogRow Float))
      → length (append_log_rows G json text tenant_id rc now_ns sls rows)
        ≡ length rows + log_count sls
  unfolding append_log_rows
  length-append_log_rows tenant_id rc now_ns [] rows = omega arith
  length-append_log_rows tenant_id rc now_ns ((name, version, lrs) ∷ sls) rows =
      let f : LogRecord Float → LogRow Float =
        λ lr. build_log_row G json text tenant_id rc name version lr now_ns in
      omega (
        arith,
        length-append_log_rows tenant_id rc now_ns sls (rows ++ map f lrs),
        length-append rows (map f lrs),
        length-map lrs f,
      )

  -- n rows, and a usage of n records
  abbrev pub Counted : ℕ → List (LogRow Float) × List ResourceUsage → Type 0
  Counted n r = (length r.0 ≡ n) × (total_records r.1 ≡ n) × AreUsed r.1

  map_log_resources-Counted :
      (tenant_id now_ns : ℕ) (req : List (ResourceLogs G json text)) (rows : List (LogRow Float))
      (usage : List ResourceUsage) (n : ℕ)
      → Counted n (rows, usage)
      → Counted
          (n + record_count req)
          (map_log_resources G json text tenant_id now_ns req rows usage)
  unfolding map_log_resources
  map_log_resources-Counted tenant_id now_ns [] rows usage n h =
      (omega (arith, h.0), omega (arith, h.1), h.2)
  map_log_resources-Counted tenant_id now_ns ((res_attrs, sls) ∷ req) rows usage n h =
      let rc = new_resource_context (attrs_to_map G json res_attrs) in
      let rows' = append_log_rows G json text tenant_id rc now_ns sls rows in
      let grown = length-append_log_rows tenant_id rc now_ns sls rows in
      let reported =
        total_records-report rc.dims.service rc.dims.environment (length rows' - length rows) usage
          h.2 in
      let rest =
        map_log_resources-Counted tenant_id now_ns req rows'
          (report rc.dims.service rc.dims.environment (length rows' - length rows) usage)
          (n + log_count sls)
          (omega (arith, h.0), omega (arith, h.0, h.1, reported.0), reported.1) in
      (omega (arith, rest.0), omega (arith, rest.1), rest.2)

  -- A log request with n records becomes n rows, and the usage that goes to the statistics counts
  -- n records, at least one in each of its entries.
  pub map_log_request-Counted :
      (tenant_id now_ns : ℕ) (req : List (ResourceLogs G json text))
      → Counted (record_count req) (map_log_request G json text tenant_id now_ns req)
  unfolding map_log_request
  map_log_request-Counted tenant_id now_ns req =
      let all = map_log_resources-Counted tenant_id now_ns req [] [] 0 (refl, refl, tt) in
      (omega (arith, all.0), omega (arith, all.1), all.2)
