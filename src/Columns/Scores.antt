-- ===== src/Columns/Scores.antt =====
-- The table of evaluation scores and its rows (llmscores/mapping.go).
use ingest.Prelude.{GoString, List, [], lit, nat_key, text_key, ◌∷◌}
use ingest.Columns.{
  Assignments, Schema, date_time_column, float64_cell, float64_column, string_cell, string_column,
  time_cell, uint32_cell, uint32_column, uint64_cell, uint64_column,
}
use ingest.Scores.{ScoreRow}

-- `chTable`
abbrev pub scores_table : GoString
scores_table = lit "optikk.llm_scores"

-- `chColumns`
unfoldable pub scores_columns : List GoString
scores_columns =
    lit "tenant_id"
    ∷ lit "timestamp"
    ∷ lit "trace_id"
    ∷ lit "span_id"
    ∷ lit "session_id"
    ∷ lit "user_id"
    ∷ lit "service"
    ∷ lit "environment"
    ∷ lit "name"
    ∷ lit "source"
    ∷ lit "data_type"
    ∷ lit "value"
    ∷ lit "string_value"
    ∷ lit "comment"
    ∷ lit "evaluator_id"
    ∷ []

-- `rowValues`: the assignments to `dst`, in order
unfoldable pub scores_values : {F : Type 0} → ScoreRow F → Assignments F
scores_values r =
    (0, uint32_cell r.tenant_id)
    ∷ (1, time_cell r.timestamp_ns)
    ∷ (2, string_cell r.trace_id)
    ∷ (3, string_cell r.span_id)
    ∷ (4, string_cell r.session_id)
    ∷ (5, string_cell r.user_id)
    ∷ (6, string_cell r.service)
    ∷ (7, string_cell r.environment)
    ∷ (8, string_cell r.name)
    ∷ (9, string_cell r.source)
    ∷ (10, string_cell r.data_type)
    ∷ (11, float64_cell r.value)
    ∷ (12, string_cell r.string_value)
    ∷ (13, string_cell r.comment)
    ∷ (14, uint64_cell r.evaluator_id)
    ∷ []

-- The columns of the table that rows are inserted with, as db/09_llm_scores.sql declares them, and the
-- value that each of them is meant to hold.
unfoldable pub scores_schema : {F : Type 0} → ScoreRow F → Schema F
scores_schema r =
    (lit "tenant_id", uint32_column, uint32_cell r.tenant_id)
    ∷ (lit "timestamp", date_time_column, time_cell r.timestamp_ns)
    ∷ (lit "trace_id", string_column, string_cell r.trace_id)
    ∷ (lit "span_id", string_column, string_cell r.span_id)
    ∷ (lit "session_id", string_column, string_cell r.session_id)
    ∷ (lit "user_id", string_column, string_cell r.user_id)
    ∷ (lit "service", string_column, string_cell r.service)
    ∷ (lit "environment", string_column, string_cell r.environment)
    ∷ (lit "name", string_column, string_cell r.name)
    ∷ (lit "source", string_column, string_cell r.source)
    ∷ (lit "data_type", string_column, string_cell r.data_type)
    ∷ (lit "value", float64_column, float64_cell r.value)
    ∷ (lit "string_value", string_column, string_cell r.string_value)
    ∷ (lit "comment", string_column, string_cell r.comment)
    ∷ (lit "evaluator_id", uint64_column, uint64_cell r.evaluator_id)
    ∷ []
