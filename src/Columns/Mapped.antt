-- ===== src/Columns/Mapped.antt =====
-- What the row mappers leave in the slots, whatever stood there before.
use ingest.Prelude.{
  All, All-of_map, GoString, List, Option, [], ap, append_assoc, arith, elem, length, length-append,
  length-map, lit, map, nat_key, refl, some, suc, sym, text_beq, text_key, true, ℕ, ◌++◌, ◌∙◌, ◌∷◌,
  ◌≡◌,
}
use ingest.GoMap.{GoMap, lookup}
use ingest.Spans.Row.{Row}
use ingest.Logs.{LogRow}
use ingest.Metrics.Row.{MetricRow, SeriesRow}
use ingest.Stats.{StatRow, stat_key_order}
use ingest.Scores.{ScoreRow}
use ingest.Columns.{Assignments, Cell, Schema, Slots, assign, column_of, map_row}
use ingest.Columns.Spans.{spans_columns, spans_schema, spans_values}
use ingest.Columns.Logs.{logs_columns, logs_schema, logs_values}
use ingest.Columns.Metrics.{metrics_columns, metrics_schema, metrics_values}
use ingest.Columns.Series.{series_columns, series_schema, series_values}
use ingest.Columns.Stats.{stats_columns, stats_schema, stats_values}
use ingest.Columns.Scores.{scores_columns, scores_schema, scores_values}

module _ {F : Type 0} where
  -- the values alone
  abbrev pub cells : Assignments F → List (Cell F)
  cells [] = []
  cells ((_, v) ∷ rest) = v ∷ cells rest

  -- the assignments to the slots from `i` on, one after another
  abbrev pub in_order : ℕ → List (Cell F) → Assignments F
  in_order i [] = []
  in_order i (v ∷ vs) = (i, v) ∷ in_order (suc i) vs

  assign-append :
      (done : Slots F) (v : Cell F) (x : Option (Cell F)) (rest : Slots F)
      → assign (length done) v (done ++ x ∷ rest) ≡ some (done ++ some v ∷ rest)
  unfolding assign
  assign-append [] v x rest = refl
  assign-append (y ∷ done) v x rest = rw (assign-append done v x rest)

  one_assignment :
      (n : ℕ) (v : Cell F) (x : Option (Cell F)) (done rest : Slots F)
      → n ≡ length done
      → assign n v (done ++ x ∷ rest) ≡ some (done ++ some v ∷ rest)
  one_assignment n v x done rest e = rw e (assign-append done v x rest)

  map_row-in_order :
      (vs : List (Cell F)) (done rest : Slots F) (n : ℕ)
      → n ≡ length done
      → length rest ≡ length vs
      → map_row (in_order n vs) (done ++ rest) ≡ some (done ++ map some vs)
  unfolding map_row
  map_row-in_order [] done [] n e h = refl
  map_row-in_order [] done (_ ∷ _) n e h = absurd (omega arith)
  map_row-in_order (v ∷ vs) done [] n e h = absurd (omega arith)
  map_row-in_order (v ∷ vs) done (x ∷ rest) n e h =
      rw (one_assignment n v x done rest e, map_row)
        (ap (map_row (in_order (suc n) vs)) (sym (append_assoc done (some v ∷ []) rest))
          ∙ map_row-in_order vs (done ++ some v ∷ []) rest (suc n)
              (omega (arith, length-append done (some v ∷ []))) (omega arith)
          ∙ ap some (append_assoc done (some v ∷ []) (map some vs)))

  -- A mapper that assigns to each slot in turn leaves nothing of what stood there.
  pub map_row_lem :
      (vs : List (Cell F)) (dst : Slots F)
      → length dst ≡ length vs
      → map_row (in_order 0 vs) dst ≡ some (map some vs)
  map_row_lem vs dst h = map_row-in_order vs [] dst 0 refl h

-- A row of one of the six tables.
pub data TableRow (F : Type 0) : Type 0 where
  span_row : Row → TableRow F
  log_row : LogRow F → TableRow F
  metric_row : MetricRow F → TableRow F
  series_row : SeriesRow → TableRow F
  stat_row : StatRow → TableRow F
  score_row : ScoreRow F → TableRow F

module _ {F : Type 0} where
  unfoldable pub columns_of : TableRow F → List GoString
  unfolding spans_columns logs_columns metrics_columns series_columns stats_columns scores_columns
  columns_of (span_row r) = spans_columns
  columns_of (log_row r) = logs_columns
  columns_of (metric_row r) = metrics_columns
  columns_of (series_row r) = series_columns
  columns_of (stat_row r) = stats_columns
  columns_of (score_row r) = scores_columns

  unfoldable pub values_of : TableRow F → Assignments F
  unfolding spans_values logs_values metrics_values series_values stats_values scores_values
  values_of (span_row r) = spans_values r
  values_of (log_row r) = logs_values r
  values_of (metric_row r) = metrics_values r
  values_of (series_row r) = series_values r
  values_of (stat_row r) = stats_values r
  values_of (score_row r) = scores_values r

  unfoldable pub schema_of : TableRow F → Schema F
  unfolding spans_schema logs_schema metrics_schema series_schema stats_schema scores_schema
  schema_of (span_row r) = spans_schema r
  schema_of (log_row r) = logs_schema r
  schema_of (metric_row r) = metrics_schema r
  schema_of (series_row r) = series_schema r
  schema_of (stat_row r) = stats_schema r
  schema_of (score_row r) = scores_schema r

  -- the values by the names of their columns
  abbrev pub by_column : List GoString → Slots F → GoMap GoString (Option (Cell F))
  by_column [] _ = []
  by_column (_ ∷ _) [] = []
  by_column (c ∷ cs) (v ∷ vs) = (c, v) ∷ by_column cs vs

  -- The slots hold, under each column of the table, the value that it is meant to hold, and the
  -- value is of the column's type.
  abbrev pub AreWritten : List GoString → Slots F → Schema F → Type 0
  AreWritten columns slots schema =
      All (λ p. (lookup p.0 (by_column columns slots) ≡ some (some p.2)) × (column_of p.2 ≡ p.1))
        schema

  AreWritten-of_maps :
      (columns : List GoString) (slots : Slots F) (schema : Schema F)
      → map (λ p. lookup p.0 (by_column columns slots)) schema ≡ map (λ p. some (some p.2)) schema
      → map (λ p. column_of p.2) schema ≡ map (λ p. p.1) schema
      → AreWritten columns slots schema
  AreWritten-of_maps columns slots [] h t = tt
  AreWritten-of_maps columns slots (p ∷ ps) h t =
      ((cc, cc), AreWritten-of_maps columns slots ps (cc) (cc))

  one_each : (r : TableRow F) → values_of r ≡ in_order 0 (cells (values_of r))
  unfolding values_of
  one_each (span_row r) = refl
  one_each (log_row r) = refl
  one_each (metric_row r) = refl
  one_each (series_row r) = refl
  one_each (stat_row r) = refl
  one_each (score_row r) = refl

  one_per_column : (r : TableRow F) → length (cells (values_of r)) ≡ length (columns_of r)
  unfolding columns_of values_of
  one_per_column (span_row r) = refl
  one_per_column (log_row r) = refl
  one_per_column (metric_row r) = refl
  one_per_column (series_row r) = refl
  one_per_column (stat_row r) = refl
  one_per_column (score_row r) = refl

  named :
      (r : TableRow F)
      → map
          (λ p. lookup p.0 (by_column (columns_of r) (map some (cells (values_of r)))))
          (schema_of r)
        ≡ map (λ p. some (some p.2)) (schema_of r)
  unfolding columns_of values_of schema_of lookup text_beq lit
  named (span_row r) = refl
  named (log_row r) = refl
  named (metric_row r) = refl
  named (series_row r) = refl
  named (stat_row r) = refl
  named (score_row r) = refl

  typed : (r : TableRow F) → map (λ p. column_of p.2) (schema_of r) ≡ map (λ p. p.1) (schema_of r)
  unfolding schema_of
  typed (span_row r) = refl
  typed (log_row r) = refl
  typed (metric_row r) = refl
  typed (series_row r) = refl
  typed (stat_row r) = refl
  typed (score_row r) = refl

  declared :
      (r : TableRow F)
      → map (λ c. elem c (map (λ p. p.0) (schema_of r))) (columns_of r)
        ≡ map (λ _. true) (columns_of r)
  unfolding columns_of schema_of text_beq lit
  declared (span_row r) = refl
  declared (log_row r) = refl
  declared (metric_row r) = refl
  declared (series_row r) = refl
  declared (stat_row r) = refl
  declared (score_row r) = refl

  -- the slots of a row
  abbrev pub row_image : TableRow F → Slots F
  row_image r = map some (cells (values_of r))

  pub map_row-row_image :
      (r : TableRow F) (dst : Slots F)
      → length dst ≡ length (columns_of r)
      → (map_row (values_of r) dst ≡ some (row_image r))
        × (length (row_image r) ≡ length (columns_of r))
  map_row-row_image r dst h = (
    ap (λ v. map_row v dst) (one_each r)
        ∙ map_row_lem (cells (values_of r)) dst (h ∙ sym (one_per_column r)),
    length-map (cells (values_of r)) some ∙ one_per_column r,
  )

  -- A row mapper, given as many slots as the table has columns, fills them all without a panic,
  -- whatever stood in them: under the name of each column stands the value of the row that the
  -- column is meant to hold, and it has the type that the table declares for the column. The table
  -- declares every column that is named.
  pub map_row_written :
      (r : TableRow F) (dst : Slots F)
      → length dst ≡ length (columns_of r)
      → (slots : Slots F) × (map_row (values_of r) dst ≡ some slots)
        × (length slots ≡ length (columns_of r))
        × AreWritten (columns_of r) slots (schema_of r)
        × All (λ c. elem c (map (λ p. p.0) (schema_of r)) ≡ true) (columns_of r)
  map_row_written r dst h =
      let (mapped, long) = map_row-row_image r dst h in
      (
        row_image r,
        mapped,
        long,
        AreWritten-of_maps (columns_of r) (row_image r) (schema_of r) (named r) (typed r),
        All-of_map _ _ (columns_of r) (declared r),
      )
