-- ===== src/Scores/Typed.antt =====
-- The scores of internal/ingestion/llmscores/extract.go that the lemmas on typed values are about.
use mathlib.Core.Path.{subst}
use ingest.Spans.Row.{Row, RowSpanEvent}
use ingest.Prelude.{
  All, All-append, Bool-cases, GoString, List, List-cases, Option-cases, [], arith, inl, inr,
  length, lit, nat_key, refl, some, text_key, ◌==◌, ◌||◌, ◌∷◌, ◌≡◌, ◌≢◌, ◌≤◌, ◌⊎◌,
}
use ingest.GoFloat.{GoFloat}
use ingest.GoText.{GoText}
use ingest.Infra.Otlp.{StringMap, truncate_utf8}
use ingest.GoMap.{at}
use ingest.Infra.Otlp.Truncate.{length-truncate_utf8-le}
use ingest.Scores.{
  ScoreRow, assign_label, assign_value, base_score, extract_from_spans, given_type, langfuse_score,
  max_comment_bytes, normalize_type, or_type, otel_score, parse_value, score_of, scores_of,
  type_boolean, type_categorical, type_numeric,
}

-- one of the three types
abbrev pub IsType : GoString → Type 0
IsType t = (t ≡ type_numeric) ⊎ ((t ≡ type_boolean) ⊎ (t ≡ type_categorical))

-- none yet, or one of them
abbrev MayBeType : GoString → Type 0
MayBeType t = (t ≡ []) ⊎ IsType t

or_type-IsType : (s t : GoString) → MayBeType s → IsType t → IsType (or_type s t)
unfolding or_type
or_type-IsType [] t m i = i
or_type-IsType (c ∷ s) t (inl e) i = absurd (cc)
or_type-IsType (c ∷ s) t (inr k) i = k

module _ (G : GoFloat) (text : GoText) where
  open G use {Float}

  -- The score has a type, a name, a comment within the limit, and the tenant, the span and the
  -- trace of the row.
  pub record IsScore (row : Row) (s : ScoreRow Float) : Type 0 where
    pub typed : IsType s.data_type
    pub named : s.name ≢ []
    pub bounded : length s.comment ≤ max_comment_bytes
    pub of_tenant : s.tenant_id ≡ row.tenant_id
    pub of_trace : s.trace_id ≡ row.trace_id
    pub of_span : s.span_id ≡ row.span_id

  -- what `assign_value` needs of a row
  record IsBase (row : Row) (s : ScoreRow Float) : Type 0 where
    may : MayBeType s.data_type
    named : s.name ≢ []
    bounded : length s.comment ≤ max_comment_bytes
    of_tenant : s.tenant_id ≡ row.tenant_id
    of_trace : s.trace_id ≡ row.trace_id
    of_span : s.span_id ≡ row.span_id

  valued :
      (row : Row) (s : ScoreRow Float) (v : Float) (str t : GoString)
      → IsBase row s
      → IsType t
      → IsScore row (record s { data_type = or_type s.data_type t; value = v; string_value = str })
  valued row s v str t b i = record {
    typed = or_type-IsType s.data_type t b.may i;
    named = b.named;
    bounded = b.bounded;
    of_tenant = b.of_tenant;
    of_trace = b.of_trace;
    of_span = b.of_span;
  }

  assign_label-IsScore :
      (row : Row) (s : ScoreRow Float) (label : GoString)
      → IsBase row s
      → IsScore row (assign_label G text s label)
  unfolding assign_label
  assign_label-IsScore row s label b =
      let lower = text.to_lower label in
      elim (Bool-cases (lower == lit "true" || lower == lit "pass" || lower == lit "yes")) [
        | inl e ↦ rw (assign_label, e) (valued row s G.one label type_boolean b (inr (inl refl)))
        | inr e ↦
            elim (Bool-cases (lower == lit "false" || lower == lit "fail" || lower == lit "no")) [
              | inl e2 ↦
                  rw (assign_label, e, e2)
                    (valued row s G.zero label type_boolean b (inr (inl refl)))
              | inr e2 ↦
                  rw (assign_label, e, e2)
                    (valued row s s.value label type_categorical b (inr (inr refl)))
            ]
      ]

  assign_value-IsScore :
      (row : Row) (s : ScoreRow Float) (raw label : GoString)
      → IsBase row s
      → IsScore row (assign_value G text s raw label)
  unfolding assign_value
  assign_value-IsScore row s raw label b = elim (Option-cases (parse_value G text raw)) [
    | inr (f, e) ↦ rw (assign_value, e) (valued row s f s.string_value type_numeric b (inl refl))
    | inl e ↦ elim (List-cases label) [
      | inl e2 ↦ rw (assign_value, e, e2) (assign_label-IsScore row s raw b)
      | inr (c, l, e2) ↦ rw (assign_value, e, e2) (assign_label-IsScore row s (c ∷ l) b)
    ]
  ]

  normalize_type-IsType : (dt : GoString) → IsType (normalize_type G text dt)
  unfolding normalize_type
  normalize_type-IsType dt =
      let lower = text.to_lower dt in
      elim (Bool-cases (lower == lit "numeric" || lower == lit "number")) [
        | inl e ↦ rw (normalize_type, e) (inl refl)
        | inr e ↦ elim (Bool-cases (lower == lit "boolean" || lower == lit "bool")) [
          | inl e2 ↦ rw (normalize_type, e, e2) (inr (inl refl))
          | inr e2 ↦ rw (normalize_type, e, e2) (inr (inr refl))
        ]
      ]

  given_type-MayBeType : (dt : GoString) → MayBeType (given_type G text dt)
  unfolding given_type
  given_type-MayBeType [] = inl refl
  given_type-MayBeType (c ∷ dt) = inr (normalize_type-IsType (c ∷ dt))

  otel_score-IsScore :
      (row : Row) (attrs : StringMap) (s : ScoreRow Float)
      → otel_score G text row attrs ≡ some s
      → IsScore row s
  unfolding otel_score base_score
  otel_score-IsScore row attrs s h = elim (List-cases (at (lit "gen_ai.evaluation.name") attrs)) [
    | inl e ↦ absurd (ground (arith, e))
    | inr (c, name, e) ↦
        let base : ScoreRow Float = record (base_score G text row (c ∷ name)) {
          comment =
              truncate_utf8 (at (lit "gen_ai.evaluation.explanation") attrs) max_comment_bytes;
        } in
        let raw = at (lit "gen_ai.evaluation.score.value") attrs in
        let label = at (lit "gen_ai.evaluation.score.label") attrs in
        let is : otel_score G text row attrs ≡ some (assign_value G text base raw label) =
          rw (otel_score, e) in
        subst (IsScore row) (cc (is, h)) (
          assign_value-IsScore row base raw label (record {
            may = inl refl;
            named = λ p. absurd (cc);
            bounded =
                length-truncate_utf8-le (at (lit "gen_ai.evaluation.explanation") attrs)
                  max_comment_bytes;
            of_tenant = refl;
            of_trace = refl;
            of_span = refl;
          }))
  ]

  langfuse_score-IsScore :
      (row : Row) (attrs : StringMap) (s : ScoreRow Float)
      → langfuse_score G text row attrs ≡ some s
      → IsScore row s
  unfolding langfuse_score base_score
  langfuse_score-IsScore row attrs s h = elim (List-cases (at (lit "langfuse.score.name") attrs)) [
    | inl e ↦ absurd (ground (arith, e))
    | inr (c, name, e) ↦
        let base : ScoreRow Float = record (base_score G text row (c ∷ name)) {
          comment = truncate_utf8 (at (lit "langfuse.score.comment") attrs) max_comment_bytes;
          data_type = given_type G text (at (lit "langfuse.score.dataType") attrs);
        } in
        let raw = at (lit "langfuse.score.value") attrs in
        let label = at (lit "langfuse.score.stringValue") attrs in
        let is : langfuse_score G text row attrs ≡ some (assign_value G text base raw label) =
          rw (langfuse_score, e) in
        subst (IsScore row) (cc (is, h)) (
          assign_value-IsScore row base raw label (record {
            may = given_type-MayBeType (at (lit "langfuse.score.dataType") attrs);
            named = λ p. absurd (cc);
            bounded =
                length-truncate_utf8-le (at (lit "langfuse.score.comment") attrs) max_comment_bytes;
            of_tenant = refl;
            of_trace = refl;
            of_span = refl;
          }))
  ]

  score_of-IsScore :
      (row : Row) (ev : RowSpanEvent) (s : ScoreRow Float)
      → score_of G text row ev ≡ some s
      → IsScore row s
  unfolding score_of
  score_of-IsScore row ev s h = elim (Bool-cases (ev.name == lit "gen_ai.evaluation.result")) [
    | inl e ↦ otel_score-IsScore row ev.attributes s (ground (arith, e, h))
    | inr e ↦ elim (Bool-cases (ev.name == lit "langfuse.score")) [
      | inl e2 ↦ langfuse_score-IsScore row ev.attributes s (ground (arith, e, e2, h))
      | inr e2 ↦ absurd (ground (arith, e, e2, h))
    ]
  ]

  -- a well-formed score of one of the rows
  abbrev pub IsScoreOf : List Row → ScoreRow Float → Type 0
  IsScoreOf [] s = ⊥
  IsScoreOf (row ∷ rows) s = IsScore row s ⊎ IsScoreOf rows s

  scores_of-IsScoreOf :
      (row : Row) (rows : List Row) (evs : List RowSpanEvent)
      → All (IsScoreOf (row ∷ rows)) (scores_of G text row evs)
  unfolding scores_of
  scores_of-IsScoreOf row rows [] = tt
  scores_of-IsScoreOf row rows (ev ∷ evs) = elim (Option-cases (score_of G text row ev)) [
    | inl e ↦ rw (scores_of, e) (scores_of-IsScoreOf row rows evs)
    | inr (s, e) ↦
        rw (scores_of, e) (inl (score_of-IsScore row ev s e), scores_of-IsScoreOf row rows evs)
  ]

  later-IsScoreOf :
      (row : Row) (rows : List Row) (ss : List (ScoreRow Float))
      → All (IsScoreOf rows) ss
      → All (IsScoreOf (row ∷ rows)) ss
  later-IsScoreOf row rows [] h = tt
  later-IsScoreOf row rows (s ∷ ss) h = (inr h.0, later-IsScoreOf row rows ss h.1)

  -- Every score that is extracted from rows has one of the three data types, a name, and a comment
  -- of at most 2048 bytes, and carries the tenant, the trace and the span of one of the rows.
  pub extract_from_spans-IsScoreOf :
      (rows : List Row) → All (IsScoreOf rows) (extract_from_spans G text rows)
  unfolding extract_from_spans
  extract_from_spans-IsScoreOf [] = tt
  extract_from_spans-IsScoreOf (row ∷ rows) =
      All-append (IsScoreOf (row ∷ rows)) (scores_of G text row row.events)
        (extract_from_spans G text rows) (scores_of-IsScoreOf row rows row.events)
        (later-IsScoreOf row rows (extract_from_spans G text rows)
          (extract_from_spans-IsScoreOf rows))
