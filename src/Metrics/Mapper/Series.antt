-- ===== src/Metrics/Mapper/Series.antt =====
-- The series rows that the mapper of internal/ingestion/metrics collects.
use mathlib.Core.Path.{subst}
use ingest.Metrics.Row.{MetricRow, RowAccumulator, RowHeader, SeriesRow, add, add_all}
use ingest.Prelude.{
  Bool-cases, Distinct, GoString, List, Option, [], ap, arith, elem, elem-append, false, inl, inr,
  length, map, nat_beq, nat_beq_iff, nat_key, not, refl, sym, text_key, ℕ, ◌&&◌, ◌++◌, ◌-◌, ◌||◌,
  ◌∙◌, ◌∷◌, ◌≡◌,
}
use ingest.GoFloat.{GoFloat}
use ingest.Signals.{ResourceUsage, report}
use ingest.Infra.Otlp.{GoAny, attrs_to_map}
use ingest.Metrics.{
  Metric, exponential_histogram, gauge, histogram, sum_data, summary, temporality_string,
  unsupported,
}
use ingest.Metrics.Mapper.{
  ResourceMetrics, append_metric, append_metrics, append_scopes, exp_histogram_row, gauge_row,
  histogram_row, map_metric_request, map_metric_resources, row_header, scalar_row, sum_row,
  summary_row,
}

abbrev pub fingerprints : List SeriesRow → List ℕ
fingerprints [] = []
fingerprints (s ∷ ss) = s.fingerprint ∷ fingerprints ss

abbrev pub row_fingerprints : {F : Type 0} → List (MetricRow F) → List ℕ
row_fingerprints [] = []
row_fingerprints (r ∷ rs) = r.fingerprint ∷ row_fingerprints rs

-- The series have distinct fingerprints, none 0, and exactly those of the rows.
pub record AreSeries {F : Type 0} (acc : RowAccumulator F) : Type 0 where
  pub distinct : Distinct (fingerprints acc.series)
  pub same :
      (a : ℕ)
      → elem a (fingerprints acc.series) ≡ (elem a (row_fingerprints acc.rows) && not (nat_beq a 0))
  pub noted : (a : ℕ) → elem a acc.seen ≡ elem a (fingerprints acc.series)

-- a row with its series
abbrev IsPair : {F : Type 0} → MetricRow F × SeriesRow → Type 0
IsPair p = p.0.fingerprint ≡ p.1.fingerprint

fingerprints-append :
    (xs ys : List SeriesRow) → fingerprints (xs ++ ys) ≡ fingerprints xs ++ fingerprints ys
fingerprints-append [] ys = refl
fingerprints-append (x ∷ xs) ys = rw (fingerprints-append xs ys)

row_fingerprints-append :
    {F : Type 0} (xs ys : List (MetricRow F))
    → row_fingerprints (xs ++ ys) ≡ row_fingerprints xs ++ row_fingerprints ys
row_fingerprints-append [] ys = refl
row_fingerprints-append (x ∷ xs) ys = rw (row_fingerprints-append xs ys)

Distinct-snoc : (xs : List ℕ) (a : ℕ) → Distinct xs → elem a xs ≡ false → Distinct (xs ++ a ∷ [])
Distinct-snoc [] a d h = (refl, tt)
Distinct-snoc (x ∷ xs) a d h =
    (ground (arith, elem-append x xs (a ∷ []), d.0), Distinct-snoc xs a d.1 (ground arith))

add-AreSeries :
    {F : Type 0} (acc : RowAccumulator F) (p : MetricRow F × SeriesRow)
    → IsPair p
    → AreSeries acc
    → AreSeries (add acc p)
unfolding add
add-AreSeries acc (row, series) pair i =
    let fp = series.fingerprint in
    let rows : (a : ℕ)
        → elem a (row_fingerprints (acc.rows ++ row ∷ []))
          ≡ (elem a (row_fingerprints acc.rows) || elem a (fp ∷ [])) =
      λ a.
        ap (elem a) (row_fingerprints-append acc.rows (row ∷ []))
        ∙ elem-append a (row_fingerprints acc.rows) (row.fingerprint ∷ [])
        ∙ rw (pair) in
    let more : (a : ℕ)
        → elem a (fingerprints (acc.series ++ series ∷ []))
          ≡ (elem a (fingerprints acc.series) || elem a (fp ∷ [])) =
      λ a.
        ap (elem a) (fingerprints-append acc.series (series ∷ []))
        ∙ elem-append a (fingerprints acc.series) (fp ∷ []) in
    elim (Bool-cases (nat_beq fp 0)) [
      | inl e ↦
          rw (add, e)
            (record {
              distinct = i.distinct;
              same = λ a. ground (arith, i.same a, rows a);
              noted = i.noted;
            })
      | inr e ↦ elim (Bool-cases (elem fp acc.seen)) [
        | inl e2 ↦
            rw (add, e, e2)
              (record {
                distinct = i.distinct;
                same =
                    λ a. ground (arith, i.same a, rows a, i.noted fp, i.same fp, nat_beq_iff fp a);
                noted = i.noted;
              })
        | inr e2 ↦
            rw (add, e, e2)
              (record {
                distinct =
                    subst Distinct (sym (fingerprints-append acc.series (series ∷ []))) (
                      Distinct-snoc (fingerprints acc.series) fp i.distinct
                        (sym (i.noted fp) ∙ e2));
                same = λ a. ground (arith, more a, i.same a, rows a, nat_beq_iff fp a);
                noted = λ a. ground (arith, more a, i.noted a);
              })
      ]
    ]

add_all-AreSeries :
    {F : Type 0} {A : Type 0} (f : A → MetricRow F × SeriesRow) (xs : List A)
    (acc : RowAccumulator F)
    → ((x : A) → IsPair (f x))
    → AreSeries acc
    → AreSeries (add_all acc (map f xs))
unfolding add_all
add_all-AreSeries f [] acc p i = i
add_all-AreSeries f (x ∷ xs) acc p i =
    add_all-AreSeries f xs (add acc (f x)) p (add-AreSeries acc (f x) (p x) i)

module _ (G : GoFloat) (json : GoAny (GoFloat.Float G) → Option GoString)
    (sum64 : GoString → ℕ) where
  open G use {Float}

  append_metric-AreSeries :
      (acc : RowAccumulator Float) (hdr : RowHeader) (m : Metric Float)
      → AreSeries acc
      → AreSeries (append_metric G json sum64 acc hdr m)
  unfolding append_metric gauge_row sum_row histogram_row exp_histogram_row summary_row scalar_row
  append_metric-AreSeries acc hdr m i =
      elim m.data_
        as (λ d. AreSeries (append_metric G json sum64 acc hdr (record m { data_ = d }))) [
          | gauge dps ↦ add_all-AreSeries (gauge_row G json sum64 hdr m) dps acc (λ x. refl) i
          | sum_data t mono dps ↦
              add_all-AreSeries (sum_row G json sum64 hdr m (temporality_string t) mono) dps acc
                (λ x. refl) i
          | histogram t dps ↦
              add_all-AreSeries (histogram_row G json sum64 hdr m (temporality_string t)) dps acc
                (λ x. refl) i
          | exponential_histogram t dps ↦
              add_all-AreSeries (exp_histogram_row G json sum64 hdr m (temporality_string t)) dps
                acc (λ x. refl) i
          | summary dps ↦ add_all-AreSeries (summary_row G json sum64 hdr m) dps acc (λ x. refl) i
          | unsupported ↦ i
        ]

  append_metrics-AreSeries :
      (acc : RowAccumulator Float) (hdr : RowHeader) (ms : List (Metric Float))
      → AreSeries acc
      → AreSeries (append_metrics G json sum64 acc hdr ms)
  unfolding append_metrics
  append_metrics-AreSeries acc hdr [] i = i
  append_metrics-AreSeries acc hdr (m ∷ ms) i =
      append_metrics-AreSeries (append_metric G json sum64 acc hdr m) hdr ms
        (append_metric-AreSeries acc hdr m i)

  append_scopes-AreSeries :
      (acc : RowAccumulator Float) (hdr : RowHeader) (sms : List (List (Metric Float)))
      → AreSeries acc
      → AreSeries (append_scopes G json sum64 acc hdr sms)
  unfolding append_scopes
  append_scopes-AreSeries acc hdr [] i = i
  append_scopes-AreSeries acc hdr (sm ∷ sms) i =
      append_scopes-AreSeries (append_metrics G json sum64 acc hdr sm) hdr sms
        (append_metrics-AreSeries acc hdr sm i)

  map_metric_resources-AreSeries :
      (tenant_id : ℕ) (req : List (ResourceMetrics G json sum64)) (acc : RowAccumulator Float)
      (usage : List ResourceUsage)
      → AreSeries acc
      → AreSeries (map_metric_resources G json sum64 tenant_id req acc usage).0
  unfolding map_metric_resources
  map_metric_resources-AreSeries tenant_id [] acc usage i = i
  map_metric_resources-AreSeries tenant_id ((res_attrs, sms) ∷ req) acc usage i =
      let hdr = row_header G json sum64 tenant_id (attrs_to_map G json res_attrs) in
      let acc' = append_scopes G json sum64 acc hdr sms in
      map_metric_resources-AreSeries tenant_id req acc'
        (report hdr.resource.service hdr.resource.environment (length acc'.rows - length acc.rows)
          usage)
        (append_scopes-AreSeries acc hdr sms i)

  -- A metric request gives one series row for each fingerprint other than 0 that its rows have,
  -- and no other series row.
  pub map_metric_request-series :
      (tenant_id : ℕ) (req : List (ResourceMetrics G json sum64))
      → let r = map_metric_request G json sum64 tenant_id req in
        Distinct (fingerprints r.1)
        × ((a : ℕ)
            → elem a (fingerprints r.1) ≡ (elem a (row_fingerprints r.0) && not (nat_beq a 0)))
  unfolding map_metric_request
  map_metric_request-series tenant_id req =
      let i =
        map_metric_resources-AreSeries tenant_id req (record { rows = []; series = []; seen = [] })
          [] (record { distinct = tt; same = λ a. refl; noted = λ a. refl }) in
      (i.distinct, i.same)
