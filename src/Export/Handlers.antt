-- ===== src/Export/Handlers.antt =====
-- The `Export` methods of the handlers of spans, logs and metrics.
pub mod Effects
use ingest.Spans.Row.{Row}
use ingest.Metrics.Row.{MetricRow, SeriesRow}
use ingest.Prelude.{Bool, GoString, List, Option, [], lit, nat_key, none, some, text_key, ℕ, ◌∷◌}
use ingest.GoMap.{size}
use ingest.GoFloat.{GoFloat}
use ingest.GoText.{GoText}
use ingest.Rpc.{RpcResult, failed, response}
use ingest.Signals.{ResourceUsage}
use ingest.LruCache.{Lru}
use ingest.Infra.Otlp.{GoAny}
use ingest.Core.Async.{AsyncPublisher, enqueue}
use ingest.Stats.{HourlyRecorder, emit_usage, stat_key_order}
use ingest.Spans.Mapper.{ResourceSpans, map_request}
use ingest.Logs.{LogRow, ResourceLogs, map_log_request}
use ingest.Metrics.Mapper.{ResourceMetrics, map_metric_request}
use ingest.Scores.{ScoreRow, extract_from_spans}
use ingest.Export.{DedupKey, Publisher, bucket, dedup_key_order, export_otlp, publish_pair}

-- the empty `Export…ServiceResponse`
pub data ExportResponse : Type 0 where
  export_response : ExportResponse

-- the handler of the spans: its producer's state, the publisher of scores and the statistics
pub record SpanHandler (W F : Type 0) : Type 0 where
  pub producer : W
  pub scores : AsyncPublisher (ScoreRow F)
  pub stats : Option HourlyRecorder

-- the handler of the logs
pub record LogHandler (W : Type 0) : Type 0 where
  pub producer : W
  pub stats : Option HourlyRecorder

-- the handler of the metrics, with the cache of its `Dedup`
pub record MetricHandler (Cache V W : Type 0) : Type 0 where
  pub dedup : Cache
  pub series_publisher : V
  pub metrics_publisher : W
  pub stats : Option HourlyRecorder

module _ (G : GoFloat) (json : GoAny (GoFloat.Float G) → Option GoString) (text : GoText)
    (sum64 : GoString → ℕ) where
  open G use {Float}

  -- `Export` of the spans after a successful publish; `none` is a panic
  unfoldable pub spans_effects :
      {W : Type 0}
      → ℕ
      → List Row
      → List ResourceUsage
      → ℕ
      → ℕ
      → SpanHandler W Float
      → Option (SpanHandler W Float × RpcResult ExportResponse)
  unfolding emit_usage extract_from_spans enqueue
  spans_effects now rows usage tenant_id size h =
      let h' = record h { stats = emit_usage now h.stats tenant_id (lit "spans") usage size } in
      elim (extract_from_spans G text rows) [
        | [] ↦ some (h', response export_response)
        | s ∷ ss ↦ elim (enqueue (s ∷ ss) h.scores) [
          | none ↦ none
          | some q ↦ some (record h' { scores = q }, response export_response)
        ]
      ]

  -- `Export` of the spans, at a time in seconds; `size` is `proto.Size(req)`
  unfoldable pub spans_export :
      {W : Type 0}
      → Publisher Row W
      → ℕ
      → Option ℕ
      → List (ResourceSpans G json text)
      → ℕ
      → SpanHandler W Float
      → Option (SpanHandler W Float × RpcResult ExportResponse)
  unfolding export_otlp map_request spans_effects
  spans_export publish now tenant req size h =
      let (w', r) = export_otlp tenant (λ t. map_request G json text t req) publish h.producer in
      elim r [
        | failed e ↦ some (record h { producer = w' }, failed e)
        | response (rows, usage, tenant_id) ↦
            spans_effects now rows usage tenant_id size (record h { producer = w' })
      ]

  -- `Export` of the logs
  unfoldable pub logs_export :
      {W : Type 0}
      → Publisher (LogRow Float) W
      → ℕ
      → ℕ
      → Option ℕ
      → List (ResourceLogs G json text)
      → ℕ
      → LogHandler W
      → LogHandler W × RpcResult ExportResponse
  unfolding export_otlp map_log_request emit_usage
  logs_export publish now now_ns tenant req size h =
      let (w', r) =
        export_otlp tenant (λ t. map_log_request G json text t now_ns req) publish h.producer in
      elim r [
        | failed e ↦ (record h { producer = w' }, failed e)
        | response (rows, usage, tenant_id) ↦ (
          record {
            producer = w';
            stats = emit_usage now h.stats tenant_id (lit "logs") usage size;
          },
          response export_response,
        )
      ]

  -- `Export` of the metrics, in a bucket of the deduplication
  unfoldable pub metrics_export :
      {Cache V W : Type 0}
      → Lru DedupKey ℕ Cache
      → Bool
      → Bool
      → ℕ
      → Publisher SeriesRow V
      → Publisher (MetricRow Float) W
      → ℕ
      → Option ℕ
      → List (ResourceMetrics G json sum64)
      → ℕ
      → MetricHandler Cache V W
      → MetricHandler Cache V W × RpcResult ExportResponse
  unfolding export_otlp map_metric_request publish_pair emit_usage
  metrics_export lru enabled series_first bucket series metrics now tenant req size h =
      let mapped : ℕ → List (MetricRow Float) × (List SeriesRow × List ResourceUsage) =
        λ t. (let m = map_metric_request G json sum64 t req in (m.0, (m.1, m.2))) in
      let ((c, v, w), r) =
        export_otlp tenant mapped
          (λ rows s.
            publish_pair lru enabled series_first bucket series metrics rows
              (elim tenant [ none ↦ [] | some t ↦ (mapped t).1.0 ]) s)
          (h.dedup, h.series_publisher, h.metrics_publisher) in
      let h' = record h { dedup = c; series_publisher = v; metrics_publisher = w } in
      elim r [
        | failed e ↦ (h', failed e)
        | response (rows, (series_rows, usage), tenant_id) ↦ (
          record h' { stats = emit_usage now h.stats tenant_id (lit "metrics") usage size },
          response export_response,
        )
      ]
