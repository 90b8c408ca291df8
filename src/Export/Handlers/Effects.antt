-- ===== src/Export/Handlers/Effects.antt =====
-- What an export of spans leaves behind, besides the rows.
use ingest.Spans.Row.{Row}
use ingest.Prelude.{
  Bool-cases, GoString, List, List-cases, Option, Option-cases, [], ap, arith, false, inl, inr, lit,
  map, nat_key, none, refl, some, sym, text_key, true, ℕ, ◌%◌, ◌+◌, ◌^◌, ◌∙◌, ◌∷◌, ◌≡◌, ◌≢◌, ◌⊎◌,
}
use ingest.GoMap.{lookup, size}
use ingest.GoFloat.{GoFloat}
use ingest.GoText.{GoText}
use ingest.Signals.{ResourceUsage}
use ingest.Infra.Otlp.{GoAny}
use ingest.Core.Async.{AsyncPublisher, enqueue}
use ingest.Core.Async.Safety.{enqueue_total}
use ingest.Stats.{
  HourlyRecorder, StatKey, StatRow, emit_usage, record_rows, record_stats, stat_key_order,
  usage_rows,
}
use ingest.Stats.Tally.{Count, count_of, given, record_rows-count, tally}
use ingest.Spans.Mapper.{ResourceSpans, map_request}
use ingest.Scores.{extract_from_spans}
use ingest.Export.Handlers.{ExportResponse, SpanHandler, spans_effects, spans_export}
use ingest.Rpc.{RpcResult, failed, response, unauthenticated, unavailable}
use ingest.Export.{Publisher, dedup_key_order, export_otlp}

module _ {Row U W : Type 0} where
  -- what `ExportOTLP` did
  unfoldable pub ExportOutcome :
      Option ℕ
      → (ℕ → List Row × U)
      → Publisher Row W
      → W
      → W × RpcResult (List Row × U × ℕ)
      → Type 0
  ExportOutcome tenant map_rows publish w (w', failed e) =
      ((tenant ≡ none) × (e.code ≡ unauthenticated) × (w' ≡ w))
      ⊎ ((t : ℕ) × (tenant ≡ some t)
          × ((map_rows t).0 ≢ [])
          × (e.code ≡ unavailable)
          × (w' ≡ (publish (map_rows t).0 w).0)
          × ((publish (map_rows t).0 w).1 ≢ none))
  ExportOutcome tenant map_rows publish w (w', response (rows, usage, t)) =
      (tenant ≡ some t)
      × (rows ≡ (map_rows t).0)
      × (usage ≡ (map_rows t).1)
      × ((rows ≡ []) × (w' ≡ w) ⊎ (w' ≡ (publish rows w).0) × ((publish rows w).1 ≡ none))

  -- `ExportOTLP` fails in two ways: without a tenant, as unauthenticated and with nothing published;
  -- and when the publish of the rows fails, as unavailable. It answers with the rows and the usage
  -- of the mapper for the tenant, after a publish of them that succeeded, or without one if there
  -- are no rows.
  pub export_otlp-ExportOutcome :
      (tenant : Option ℕ) (map_rows : ℕ → List Row × U) (publish : Publisher Row W) (w : W)
      → ExportOutcome tenant map_rows publish w (export_otlp tenant map_rows publish w)
  unfolding ExportOutcome export_otlp
  export_otlp-ExportOutcome none map_rows publish w = inl (refl, refl, refl)
  export_otlp-ExportOutcome (some t) map_rows publish w = elim (List-cases (map_rows t).0) [
    | inl e ↦ rw (export_otlp, e) (refl, sym e, refl, inl (refl, refl))
    | inr (r, rs, e) ↦ elim (Option-cases (publish (r ∷ rs) w).1) [
      | inl e2 ↦ rw (export_otlp, e, e2) (refl, sym e, refl, inr (refl, e2))
      | inr (x, e2) ↦
          rw (export_otlp, e, e2)
            (inr (
              t,
              refl,
              (λ p. absurd (cc (e, p))),
              refl,
              ap (λ z. (publish z w).0) (sym e),
              λ p. absurd (cc (ap (λ z. (publish z w).1) e, e2, p)),
            ))
    ]
  ]

enqueue_nothing : {Row : Type 0} (a : AsyncPublisher Row) → enqueue [] a ≡ some a
unfolding enqueue
enqueue_nothing a = refl

module _ (G : GoFloat) (json : GoAny (GoFloat.Float G) → Option GoString) (text : GoText)
    (sum64 : GoString → ℕ) where
  open G use {Float}

  -- What the recorder holds after the usage was recorded: nothing without a recorder, what it held
  -- if it is closing, and otherwise for each key its count and that of the rows of the usage, in 64
  -- bits.
  unfoldable pub IsRecorded : List StatRow → Option HourlyRecorder → Option HourlyRecorder → Type 0
  IsRecorded rows none after = after ≡ none
  IsRecorded rows (some r) after =
      (r' : HourlyRecorder) × (after ≡ some r')
      × (r'.closing ≡ r.closing)
      × ((r.closing ≡ true) × (r'.rows ≡ r.rows)
          ⊎ (r.closing ≡ false)
            × ((c : Count) (k : StatKey)
                → count_of c k (lookup k r'.rows) % 2 ^ 64
                  ≡ (count_of c k (lookup k r.rows) + tally c k rows) % 2 ^ 64))

  -- the effects of an export of spans, of the rows and the usage of a tenant
  abbrev pub SpanEffects :
      {W : Type 0}
      → ℕ
      → ℕ
      → List Row
      → List ResourceUsage
      → ℕ
      → SpanHandler W Float
      → SpanHandler W Float × RpcResult ExportResponse
      → Type 0
  SpanEffects now t rows usage size h (h', failed e) = (h'.stats ≡ h.stats) × (h'.scores ≡ h.scores)
  SpanEffects now t rows usage size h (h', response done) =
      IsRecorded (usage_rows now (t % 2 ^ 32) (lit "spans") usage size) h.stats h'.stats
      × (enqueue (extract_from_spans G text rows) h.scores ≡ some h'.scores)

  -- the call ends, with these effects
  unfoldable pub Ends :
      {W : Type 0}
      → ℕ
      → ℕ
      → List Row
      → List ResourceUsage
      → ℕ
      → SpanHandler W Float
      → Option (SpanHandler W Float × RpcResult ExportResponse)
      → Type 0
  Ends now t rows usage size h none = ⊥
  Ends now t rows usage size h (some out) = SpanEffects now t rows usage size h out

  given-map : (rows : List StatRow) → given (map (λ x. some x) rows) ≡ rows
  given-map [] = refl
  given-map (r ∷ rs) = ap (◌∷◌ r) (given-map rs)

  none-IsRecorded : (rows : List StatRow) → IsRecorded rows none none
  unfolding IsRecorded
  none-IsRecorded rows = refl

  nothing-IsRecorded : (r : HourlyRecorder) → IsRecorded [] (some r) (some r)
  unfolding IsRecorded
  nothing-IsRecorded r = (
    r,
    refl,
    refl,
    elim (Bool-cases r.closing) [
      | inl closing ↦ inl (closing, refl)
      | inr running ↦ inr (running, λ c k. ap (λ n. n % 2 ^ 64) (omega arith))
    ],
  )

  record_stats_closing :
      (r : HourlyRecorder) (rows : List (Option StatRow))
      → r.closing ≡ true
      → record_stats r rows ≡ r
  unfolding record_stats
  record_stats_closing r rows h = ground arith

  record_stats_running :
      (r : HourlyRecorder) (rows : List (Option StatRow))
      → r.closing ≡ false
      → record_stats r rows ≡ record r { rows = record_rows r.rows rows }
  unfolding record_stats
  record_stats_running r rows h = ground arith

  record_stats-IsRecorded :
      (r : HourlyRecorder) (rows : List StatRow)
      → IsRecorded rows (some r) (some (record_stats r (map (λ x. some x) rows)))
  unfolding IsRecorded
  record_stats-IsRecorded r rows =
      let given_rows = map (λ x. some x) rows in
      elim (Bool-cases r.closing) [
        | inl closing ↦ (
          r,
          ap (λ x. some x) (record_stats_closing r given_rows closing),
          refl,
          inl (closing, refl),
        )
        | inr running ↦ (
          record r { rows = record_rows r.rows given_rows },
          ap (λ x. some x) (record_stats_running r given_rows running),
          refl,
          inr (
            running,
            λ c k.
                record_rows-count c k r.rows given_rows
                ∙ ap (λ x. (count_of c k (lookup k r.rows) + tally c k x) % 2 ^ 64)
                    (given-map rows),
          ),
        )
      ]

  emit_usage-IsRecorded :
      (now t : ℕ) (usage : List ResourceUsage) (size : ℕ) (stats : Option HourlyRecorder)
      → IsRecorded
          (usage_rows now (t % 2 ^ 32) (lit "spans") usage size)
          stats
          (emit_usage now stats t (lit "spans") usage size)
  unfolding emit_usage
  emit_usage-IsRecorded now t usage size none = none-IsRecorded _
  emit_usage-IsRecorded now t usage size (some r) =
      elim (List-cases (usage_rows now (t % 2 ^ 32) (lit "spans") usage size)) [
        | inl e ↦ rw (e, emit_usage) (nothing-IsRecorded r)
        | inr (row, rest, e) ↦ rw (e, emit_usage) (record_stats-IsRecorded r (row ∷ rest))
      ]

  effects_lem :
      {W : Type 0} (now t : ℕ) (rows : List Row) (usage : List ResourceUsage) (size : ℕ)
      (h : SpanHandler W Float) (w' : W)
      → h.scores.queue_closed ≡ h.scores.closed
      → Ends now t rows usage size h
          (spans_effects G json text sum64 now rows usage t size (record h { producer = w' }))
  unfolding Ends spans_effects
  effects_lem now t rows usage size h w' agree =
      let recorded = emit_usage-IsRecorded now t usage size h.stats in
      elim (List-cases (extract_from_spans G text rows)) [
        | inl e ↦
            rw (spans_effects, e)
              (recorded, ap (λ x. enqueue x h.scores) e ∙ enqueue_nothing h.scores)
        | inr (s, ss, e) ↦
            let (q, sent) = enqueue_total h.scores agree (s ∷ ss) in
            rw (spans_effects, e, sent) (recorded, ap (λ x. enqueue x h.scores) e ∙ sent)
      ]

  -- For a publisher of scores whose flag agrees with its channel, the export of a tenant's spans
  -- does not panic. When it fails it records no usage and enqueues no score. When it succeeds it
  -- has enqueued exactly the scores of the mapper's rows, and a recorder that is not closing counts,
  -- for each key, as many records and bytes more, in 64 bits, as the rows of the mapper's usage
  -- have for that key.
  pub spans_export-Ends :
      {W : Type 0} (publish : Publisher Row W) (now t : ℕ) (req : List (ResourceSpans G json text))
      (size : ℕ) (h : SpanHandler W Float)
      → h.scores.queue_closed ≡ h.scores.closed
      → let (rows, usage) = map_request G json text t req in
        Ends now t rows usage size h
          (spans_export G json text sum64 publish now (some t) req size h)
  unfolding Ends spans_export export_otlp
  spans_export-Ends publish now t req size h agree =
      elim (List-cases (map_request G json text t req).0) [
        | inl e ↦
            rw (spans_export, export_otlp, e)
              (effects_lem now t [] (map_request G json text t req).1 size h h.producer agree)
        | inr (r, rs, e) ↦ elim (Option-cases (publish (r ∷ rs) h.producer).1) [
          | inl e2 ↦
              rw (spans_export, export_otlp, e, e2)
                (effects_lem now t (r ∷ rs) (map_request G json text t req).1 size h
                  (export_otlp (some t) (λ t'. map_request G json text t' req) publish h.producer).0
                  agree)
          | inr (x, e2) ↦ rw (spans_export, export_otlp, e, e2) (refl, refl)
        ]
      ]
