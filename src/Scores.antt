-- ===== src/Scores.antt =====
-- internal/ingestion/llmscores/extract.go: evaluation scores from the events of spans.
pub mod Typed
use ingest.Spans.Row.{Row, RowSpanEvent}
use ingest.Prelude.{
  GoString, List, Option, [], if◌then◌else◌, lit, nat_key, none, some, text_key, zero, ℕ, ◌++◌,
  ◌==◌, ◌||◌, ◌∷◌,
}
use ingest.Prelude.Int.{ℤ}
use ingest.GoMap.{at}
use ingest.GoFloat.{GoFloat}
use ingest.GoText.{GoText}
use ingest.Infra.Otlp.{StringMap, truncate_utf8}

abbrev pub max_comment_bytes : ℕ
max_comment_bytes = 2048

abbrev pub type_numeric : GoString
type_numeric = lit "numeric"

abbrev pub type_boolean : GoString
type_boolean = lit "boolean"

abbrev pub type_categorical : GoString
type_categorical = lit "categorical"

-- `schema.ScoreRow`
pub record ScoreRow (F : Type 0) : Type 0 where
  pub tenant_id : ℕ
  pub timestamp_ns : ℤ
  pub trace_id : GoString
  pub span_id : GoString
  pub session_id : GoString
  pub user_id : GoString
  pub service : GoString
  pub environment : GoString
  pub name : GoString
  pub source : GoString
  pub data_type : GoString
  pub value : F
  pub string_value : GoString
  pub comment : GoString
  pub evaluator_id : ℕ

-- `if s.DataType == "" { s.DataType = t }`
unfoldable pub or_type : GoString → GoString → GoString
or_type [] t = t
or_type (c ∷ s) t = c ∷ s

module _ (G : GoFloat) (text : GoText) where
  open G use {Float}

  -- `baseScore`
  unfoldable pub base_score : Row → GoString → ScoreRow Float
  base_score row name = record {
    tenant_id = row.tenant_id;
    timestamp_ns = row.timestamp_ns;
    trace_id = row.trace_id;
    span_id = row.span_id;
    session_id = row.gen_ai.session_id;
    user_id = row.gen_ai.user_id;
    service = row.service;
    environment = row.environment;
    name = name;
    source = lit "otel";
    data_type = [];
    value = G.zero;
    string_value = [];
    comment = [];
    evaluator_id = 0;
  }

  -- `assignValue` from the label on
  unfoldable pub assign_label : ScoreRow Float → GoString → ScoreRow Float
  unfolding or_type
  assign_label s label =
      let lower = text.to_lower label in
      if lower == lit "true" || lower == lit "pass" || lower == lit "yes"
      then record s {
        string_value = label;
        value = G.one;
        data_type = or_type s.data_type type_boolean;
      }
      else if lower == lit "false" || lower == lit "fail" || lower == lit "no"
      then record s {
        string_value = label;
        value = G.zero;
        data_type = or_type s.data_type type_boolean;
      }
      else record s { string_value = label; data_type = or_type s.data_type type_categorical }

  -- what `ParseFloat` gives for a value that is not empty
  unfoldable pub parse_value : GoString → Option Float
  parse_value [] = none
  parse_value (c ∷ raw) = G.parse (c ∷ raw)

  -- `assignValue`
  unfoldable pub assign_value : ScoreRow Float → GoString → GoString → ScoreRow Float
  unfolding assign_label parse_value
  assign_value s raw label = elim (parse_value raw) [
    | some f ↦ record s { data_type = or_type s.data_type type_numeric; value = f }
    | none ↦ elim label [ [] ↦ assign_label s raw | c ∷ l ↦ assign_label s (c ∷ l) ]
  ]

  -- `normalizeType`
  unfoldable pub normalize_type : GoString → GoString
  normalize_type dt =
      let lower = text.to_lower dt in
      if lower == lit "numeric" || lower == lit "number"
      then type_numeric
      else if lower == lit "boolean" || lower == lit "bool"
      then type_boolean
      else type_categorical

  -- `otelScore`
  unfoldable pub otel_score : Row → StringMap → Option (ScoreRow Float)
  unfolding base_score assign_value truncate_utf8
  otel_score row attrs = elim (at (lit "gen_ai.evaluation.name") attrs) [
    | [] ↦ none
    | c ∷ name ↦ some (
        assign_value
          (record (base_score row (c ∷ name)) {
            comment =
                truncate_utf8 (at (lit "gen_ai.evaluation.explanation") attrs) max_comment_bytes;
          })
          (at (lit "gen_ai.evaluation.score.value") attrs)
          (at (lit "gen_ai.evaluation.score.label") attrs))
  ]

  -- the type that `langfuseScore` sets
  unfoldable pub given_type : GoString → GoString
  unfolding normalize_type
  given_type [] = []
  given_type (c ∷ dt) = normalize_type (c ∷ dt)

  -- `langfuseScore`
  unfoldable pub langfuse_score : Row → StringMap → Option (ScoreRow Float)
  unfolding base_score assign_value truncate_utf8 given_type
  langfuse_score row attrs = elim (at (lit "langfuse.score.name") attrs) [
    | [] ↦ none
    | c ∷ name ↦ some (
        assign_value
          (record (base_score row (c ∷ name)) {
            comment = truncate_utf8 (at (lit "langfuse.score.comment") attrs) max_comment_bytes;
            data_type = given_type (at (lit "langfuse.score.dataType") attrs);
          })
          (at (lit "langfuse.score.value") attrs) (at (lit "langfuse.score.stringValue") attrs))
  ]

  -- the `switch` on the name of an event
  unfoldable pub score_of : Row → RowSpanEvent → Option (ScoreRow Float)
  unfolding otel_score langfuse_score
  score_of row ev =
      if ev.name == lit "gen_ai.evaluation.result"
      then otel_score row ev.attributes
      else if ev.name == lit "langfuse.score"
      then langfuse_score row ev.attributes
      else none

  -- the loop over the events of a row
  unfoldable pub scores_of : Row → List RowSpanEvent → List (ScoreRow Float)
  unfolding score_of
  scores_of row [] = []
  scores_of row (ev ∷ evs) = elim (score_of row ev) [
    | none ↦ scores_of row evs
    | some s ↦ s ∷ scores_of row evs
  ]

  -- `ExtractFromSpans`
  unfoldable pub extract_from_spans : List Row → List (ScoreRow Float)
  unfolding scores_of
  extract_from_spans [] = []
  extract_from_spans (row ∷ rows) = scores_of row row.events ++ extract_from_spans rows
