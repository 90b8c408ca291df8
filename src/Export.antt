-- ===== src/Export.antt =====
-- The export of a request: core/export.go, core/paired_publisher.go, metricseries/dedup.go and
-- the handlers of the three signals (spans/handler.go, logs/handler.go, metrics/handler.go).
pub mod Dedup
pub mod Handlers
use ingest.Metrics.Row.{SeriesRow, add}
use ingest.Prelude.{
  Bool, GoString, Key, List, Option, [], false, if◌then◌else◌, leb, lit, nat_beq, nat_key, none,
  some, text_key, ℕ, ◌++◌, ◌/◌, ◌||◌, ◌∷◌,
}
use ingest.Prelude.Int.{pos_part, ℤ}
use ingest.Prelude.Pairs.{pair_key}
use ingest.LruCache.{Lru}
use ingest.Rpc.{RpcResult, failed, response, unauthenticated, unavailable}

-- `Publisher`, with the state it works on; an error or none
abbrev pub Publisher : Type 0 → Type 0 → Type 0
Publisher Row W = List Row → W → W × Option GoString

-- `ExportOTLP` with the publish's state: the rows, the usage and the tenant, or a status.
-- `tenant` is what `TenantIDFromContext` finds.
unfoldable pub export_otlp :
    {Row U W : Type 0}
    → Option ℕ
    → (ℕ → List Row × U)
    → Publisher Row W
    → W
    → W × RpcResult (List Row × U × ℕ)
export_otlp none map_rows publish w =
    (w, failed (record { code = unauthenticated; message = lit "tenant id missing from context" }))
export_otlp (some tenant_id) map_rows publish w =
    let (rows, usage) = map_rows tenant_id in
    elim rows [
      | [] ↦ (w, response ([], usage, tenant_id))
      | r ∷ rs ↦
          let (w', err) = publish (r ∷ rs) w in
          elim err [
            | some e ↦ (
              w',
              failed
                  (record { code = unavailable; message = lit "telemetry pipeline unavailable" }),
            )
            | none ↦ (w', response (r ∷ rs, usage, tenant_id))
          ]
    ]

-- `PublishMetricPair`: both publishes run; when both fail, the error of the first to fail is
-- returned, which `series_first` decides.
unfoldable pub publish_metric_pair :
    {S M V W : Type 0}
    → Bool
    → Publisher S V
    → List S
    → Publisher M W
    → List M
    → V × W
    → (V × W) × Option GoString
publish_metric_pair series_first series series_rows metrics metric_rows (v, w) =
    let (v', series_err) = series series_rows v in
    let (w', metric_err) = metrics metric_rows w in
    (
      (v', w'),
      elim series_err [
        | none ↦ elim metric_err [
          | none ↦ none
          | some m ↦ some (lit "metric payload publish: " ++ m)
        ]
        | some s ↦ elim metric_err [
          | none ↦ some (lit "metric series publish: " ++ s)
          | some m ↦
              if series_first
              then some (lit "metric series publish: " ++ s)
              else some (lit "metric payload publish: " ++ m)
        ]
      ],
    )

-- `dedupKey`
abbrev pub DedupKey : Type 0
DedupKey = ℕ × ℕ

instance abbrev pub dedup_key_order : Key DedupKey
dedup_key_order = pair_key nat_key nat_key

unfoldable pub dedup_key : SeriesRow → DedupKey
dedup_key r = (r.tenant_id, r.fingerprint)

-- `NewDedup`: the seconds of a bucket, or nil; `second` is a second in nanoseconds
unfoldable pub new_dedup : ℤ → ℤ → Option ℕ
new_dedup capacity republish_interval =
    if leb (pos_part capacity) 0 || leb (pos_part republish_interval) 0
    then none
    else some (pos_part republish_interval / 1_000_000_000)

-- `Bucket`, at a time in seconds. A bucket of no seconds, of an interval below a second, panics.
unfoldable pub bucket : Option ℕ → ℕ → Option ℕ
bucket none now = some 0
bucket (some bucket_secs) now = if nat_beq bucket_secs 0 then none else some (now / bucket_secs)

module _ {Cache : Type 0} (lru : Lru DedupKey ℕ Cache) where
  -- the test `ok && last >= bucket`
  abbrev pub is_current : ℕ → Option ℕ → Bool
  is_current bucket none = false
  is_current bucket (some last) = leb bucket last

  -- the loop of `FilterUnpublished`
  unfoldable pub filter_loop : ℕ → List SeriesRow → Cache → Cache × List SeriesRow
  unfolding dedup_key
  filter_loop bucket [] cache = (cache, [])
  filter_loop bucket (r ∷ rs) cache =
      let (cache', found) = lru.get (dedup_key r) cache in
      let (cache'', out) = filter_loop bucket rs cache' in
      if is_current bucket found then (cache'', out) else (cache'', r ∷ out)

  -- `FilterUnpublished`; `enabled` is false for a nil `*Dedup`
  unfoldable pub filter_unpublished : Bool → List SeriesRow → ℕ → Cache → Cache × List SeriesRow
  unfolding filter_loop
  filter_unpublished enabled rows bucket cache =
      if enabled then filter_loop bucket rows cache else (cache, rows)

  unfoldable pub mark_loop : List SeriesRow → ℕ → Cache → Cache
  unfolding dedup_key
  mark_loop [] bucket cache = cache
  mark_loop (r ∷ rs) bucket cache = mark_loop rs bucket (lru.add (dedup_key r) bucket cache)

  -- `MarkPublished`
  unfoldable pub mark_published : Bool → List SeriesRow → ℕ → Cache → Cache
  unfolding mark_loop
  mark_published enabled rows bucket cache = if enabled then mark_loop rows bucket cache else cache

  -- `publishPair` of the metrics handler from the publish on
  unfoldable pub publish_filtered :
      {M V W : Type 0}
      → Bool
      → Bool
      → ℕ
      → Publisher SeriesRow V
      → Publisher M W
      → List M
      → List SeriesRow
      → Cache × V × W
      → (Cache × V × W) × Option GoString
  unfolding publish_metric_pair mark_published
  publish_filtered enabled series_first bucket series metrics rows unpublished (cache, v, w) =
      let ((v', w'), err) =
        publish_metric_pair series_first series unpublished metrics rows (v, w) in
      elim err [
        | some e ↦ ((cache, v', w'), some e)
        | none ↦ ((mark_published enabled unpublished bucket cache, v', w'), none)
      ]

  -- `publishPair`, in a bucket
  unfoldable pub publish_pair :
      {M V W : Type 0}
      → Bool
      → Bool
      → ℕ
      → Publisher SeriesRow V
      → Publisher M W
      → List M
      → List SeriesRow
      → Cache × V × W
      → (Cache × V × W) × Option GoString
  unfolding filter_unpublished publish_filtered
  publish_pair enabled series_first bucket series metrics rows series_rows (cache, v, w) =
      let (cache', unpublished) = filter_unpublished enabled series_rows bucket cache in
      publish_filtered enabled series_first bucket series metrics rows unpublished (cache', v, w)
