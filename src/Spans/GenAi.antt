-- ===== src/Spans/GenAi.antt =====
-- The GenAI fields of a span (genai.go).
use ingest.Prelude.{
  Bool, GoString, List, Option, [], if◌then◌else◌, leb, lit, ltb, nat_beq, nat_key, none, not, some,
  text_key, ℕ, ◌%◌, ◌&&◌, ◌*◌, ◌+◌, ◌-◌, ◌==◌, ◌^◌, ◌||◌, ◌∷◌,
}
use ingest.GoText.{GoText}
use ingest.GoStrings.{split_byte, trim_space}
use ingest.GoMap.{at, lookup}
use ingest.Signals.{has_prefix, is_empty, or_else}
use ingest.Infra.Otlp.{StringMap, first_non_empty, truncate_utf8}

abbrev pub max_gen_ai_content_bytes : ℕ
max_gen_ai_content_bytes = 16 * 1024

pub record GenAi : Type 0 where
  pub system : GoString
  pub operation : GoString
  pub request_model : GoString
  pub response_model : GoString
  pub prompt : GoString
  pub completion : GoString
  pub input_tokens : ℕ
  pub output_tokens : ℕ
  pub present : Bool
  pub user_id : GoString
  pub session_id : GoString
  pub tags : List GoString
  pub release : GoString
  pub prompt_name : GoString
  pub prompt_version : ℕ
  pub span_kind : GoString

abbrev pub gen_ai_marker_keys : List GoString
gen_ai_marker_keys =
    lit "gen_ai.conversation.id"
    ∷ lit "gen_ai.request.user"
    ∷ lit "langfuse.session.id"
    ∷ lit "langfuse.user.id"
    ∷ lit "langfuse.observation.type"
    ∷ lit "gen_ai.observation.type"
    ∷ []

-- The value of a run of decimal digits, after `n`; `none` is a byte that is no digit.
unfoldable pub digits_value : ℕ → GoString → Option ℕ
digits_value n [] = some n
digits_value n (c ∷ s) = if leb 48 c && leb c 57 then digits_value (n * 10 + (c - 48)) s else none

-- `strconv.ParseUint(v, 10, 64)`; `none` is an error
unfoldable pub parse_uint : GoString → Option ℕ
unfolding digits_value
parse_uint [] = none
parse_uint (c ∷ s) = elim (digits_value 0 (c ∷ s)) [
  | none ↦ none
  | some n ↦ if ltb n (2 ^ 64) then some n else none
]

-- `parseTokenCount`
unfoldable pub parse_token_count : GoString → ℕ
unfolding parse_uint
parse_token_count [] = 0
parse_token_count (c ∷ s) = elim (parse_uint (c ∷ s)) [ none ↦ 0 | some n ↦ n ]

-- `normalizeGenAIOperation`
unfoldable pub normalize_gen_ai_operation : GoString → GoString
normalize_gen_ai_operation op =
    if op == []
    then []
    else if op == lit "chat" || op == lit "text_completion" || op == lit "generate_content"
    then lit "chat"
    else if op == lit "execute_tool"
    then lit "tool"
    else if op == lit "embeddings"
    then lit "embedding"
    else if op == lit "retrieval" || op == lit "retrieve"
    then lit "retrieval"
    else if op == lit "invoke_agent" || op == lit "create_agent" || op == lit "agent"
    then lit "agent"
    else lit "other"

-- `nonEmptyTrimmed`; nil and an empty list are both `[]`
unfoldable pub non_empty_trimmed : List GoString → List GoString
unfolding trim_space
non_empty_trimmed [] = []
non_empty_trimmed (s ∷ ss) = elim (trim_space s) [
  | [] ↦ non_empty_trimmed ss
  | c ∷ t ↦ (c ∷ t) ∷ non_empty_trimmed ss
]

module _ (text : GoText) where
  -- `parseTags`
  unfoldable pub parse_tags : GoString → List GoString
  unfolding non_empty_trimmed split_byte
  parse_tags [] = []
  parse_tags (c ∷ v) =
      let listed =
        if has_prefix (trim_space (c ∷ v)) (lit "[")
        then text.unmarshal_strings (c ∷ v)
        else none in
      elim listed [
        | some tags ↦ non_empty_trimmed tags
        | none ↦ non_empty_trimmed (split_byte 44 [] (c ∷ v))
      ]

-- `genAISpanKind`
unfoldable pub gen_ai_span_kind : StringMap → GenAi → ℕ → GoString
gen_ai_span_kind span_map g duration_nano =
    let t =
      first_non_empty span_map
        (lit "langfuse.observation.type" ∷ lit "gen_ai.observation.type" ∷ []) in
    if not g.present then [] else elim (lookup (lit "optikk.eval") span_map) [
      | some v ↦ lit "eval"
      | none ↦
          if t == lit "generation" || t == lit "event" || t == lit "span" || t == lit "eval"
          then t
          else if not (is_empty g.request_model) || not (is_empty g.response_model)
          then lit "generation"
          else if nat_beq duration_nano 0
          then lit "event"
          else lit "span"
    ]

module _ (text : GoText) where
  -- `extractGenAI`, up to the span kind
  unfoldable pub gen_ai_fields : StringMap → GoString → GenAi
  unfolding normalize_gen_ai_operation parse_tags parse_token_count first_non_empty or_else
      truncate_utf8
  gen_ai_fields span_map resource_version =
      let system =
        first_non_empty span_map (lit "gen_ai.provider.name" ∷ lit "gen_ai.system" ∷ []) in
      let request_model = at (lit "gen_ai.request.model") span_map in
      let response_model = at (lit "gen_ai.response.model") span_map in
      let op = at (lit "gen_ai.operation.name") span_map in
      let present =
        not (is_empty system)
        || not (is_empty op)
        || not (is_empty request_model)
        || not (is_empty response_model)
        || not (is_empty (first_non_empty span_map gen_ai_marker_keys)) in
      record {
        system = system;
        operation = normalize_gen_ai_operation op;
        request_model = request_model;
        response_model = response_model;
        prompt =
            truncate_utf8
              (first_non_empty span_map (lit "gen_ai.prompt" ∷ lit "gen_ai.input.messages" ∷ []))
              max_gen_ai_content_bytes;
        completion =
            truncate_utf8
              (first_non_empty span_map
                (lit "gen_ai.completion" ∷ lit "gen_ai.output.messages" ∷ []))
              max_gen_ai_content_bytes;
        input_tokens = parse_token_count (
            first_non_empty span_map
              (lit "gen_ai.usage.input_tokens" ∷ lit "gen_ai.usage.prompt_tokens" ∷ []));
        output_tokens = parse_token_count (
            first_non_empty span_map
              (lit "gen_ai.usage.output_tokens" ∷ lit "gen_ai.usage.completion_tokens" ∷ []));
        present = present;
        user_id =
            if present
            then first_non_empty span_map (
                lit "gen_ai.request.user"
                ∷ lit "user.id"
                ∷ lit "enduser.id"
                ∷ lit "langfuse.user.id"
                ∷ [])
            else [];
        session_id =
            if present
            then first_non_empty span_map
                (lit "gen_ai.conversation.id" ∷ lit "session.id" ∷ lit "langfuse.session.id" ∷ [])
            else [];
        tags =
            parse_tags text
              (first_non_empty span_map (lit "langfuse.trace.tags" ∷ lit "optikk.llm.tags" ∷ []));
        release =
            if present then or_else (at (lit "langfuse.release") span_map) resource_version else [];
        prompt_name =
            first_non_empty span_map (lit "langfuse.prompt.name" ∷ lit "optikk.prompt.name" ∷ []);
        prompt_version =
            parse_token_count (
              first_non_empty span_map
                (lit "langfuse.prompt.version" ∷ lit "optikk.prompt.version" ∷ []))
            % 2 ^ 32;
        span_kind = [];
      }

  -- `extractGenAI`
  unfoldable pub extract_gen_ai : StringMap → ℕ → GoString → GenAi
  unfolding gen_ai_fields gen_ai_span_kind
  extract_gen_ai span_map duration_nano resource_version =
      let g = gen_ai_fields span_map resource_version in
      record g { span_kind = gen_ai_span_kind span_map g duration_nano }
