-- ===== src/OtlpHttp.antt =====
-- internal/ingestion/otlphttp/handler.go: OTLP over HTTP.
pub mod Body
pub mod Accept
use ingest.Prelude.{
  Bool, GoString, List, Option, [], if◌then◌else◌, length, lit, ltb, nat_key, none, not, some,
  text_key, ℕ, ◌*◌, ◌++◌, ◌==◌, ◌^◌, ◌||◌, ◌∷◌,
}
use ingest.Rpc.{
  Code, RpcResult, Status, failed, invalid_argument, resource_exhausted, response, unauthenticated,
  unavailable,
}
use ingest.Auth.{
  AuthError, auth_rate_limited, invalid_api_key, missing_api_key, other_error, rejected, tenant,
}
use ingest.Auth.Grpc.{TenantResolver}

abbrev pub max_body_bytes : ℕ
max_body_bytes = 16 * 2 ^ 20

-- A body: its bytes up to the end or the first error.
pub record Stream : Type 0 where
  pub bytes : GoString
  pub fault : Bool

-- What the handler reads of an `http.Request`.
pub record Request : Type 0 where
  pub method : GoString
  pub api_key : GoString
  pub content_type : GoString
  pub content_encoding : GoString
  pub body : Stream

-- The headers that the handler sets itself, first to last, and not those of `http.Error`.
pub record Response : Type 0 where
  pub status : ℕ
  pub headers : List (GoString × GoString)
  pub body : GoString

unfoldable pub http_error : List (GoString × GoString) → GoString → ℕ → Response
http_error headers message status = record {
  status = status;
  headers = headers;
  body = message ++ 10 ∷ [];
}

pub data BodyError : Type 0 where
  too_large : BodyError
  unsupported_encoding : BodyError
  other_fault : BodyError

pub data ReadResult : Type 0 where
  got : GoString → ReadResult
  read_error : BodyError → ReadResult

-- `io.ReadAll(http.MaxBytesReader(w, s, limit))`
unfoldable pub read_all : ℕ → Stream → ReadResult
read_all limit s =
    if ltb limit (length s.bytes)
    then read_error too_large
    else if s.fault
    then read_error other_fault
    else got s.bytes

-- `errors.Join(err, zr.Close())`
unfoldable pub join_close : Bool → ReadResult → ReadResult
join_close closed (got b) = if closed then got b else read_error other_fault
join_close closed (read_error e) = read_error e

-- `gzip` stands for `gzip.NewReader`, with whether `Close` succeeds; `none` is an error.
module _ (gzip : Stream → Option (Stream × Bool)) where
  -- `readBody`
  unfoldable pub read_body : Request → ReadResult
  unfolding read_all join_close
  read_body r =
      if r.content_encoding == [] || r.content_encoding == lit "identity"
      then read_all max_body_bytes r.body
      else if r.content_encoding == lit "gzip"
      then elim (gzip r.body) [
        | none ↦ read_error other_fault
        | some (inflated, closed) ↦ join_close closed (read_all max_body_bytes inflated)
      ]
      else read_error unsupported_encoding

-- the status of `writeError`
unfoldable pub http_code : Code → ℕ
http_code unauthenticated = 401
http_code invalid_argument = 400
http_code resource_exhausted = 429
http_code unavailable = 503
http_code _ = 500

-- `writeError`
unfoldable pub write_error : Status → Response
unfolding http_code
write_error e = http_error [] e.message (http_code e.code)

-- the answer to an error of the resolver
unfoldable pub auth_response : AuthError → Response
auth_response missing_api_key = http_error [] (lit "unauthenticated") 401
auth_response invalid_api_key = http_error [] (lit "unauthenticated") 401
auth_response auth_rate_limited =
    http_error ((lit "Retry-After", lit "1") ∷ []) (lit "authentication rate limited") 429
auth_response (other_error e) = http_error [] (lit "authentication service unavailable") 500

-- the answer to a body that was not read
unfoldable pub body_response : BodyError → Response
body_response too_large = http_error [] (lit "request body too large") 413
body_response unsupported_encoding = http_error [] (lit "unsupported content encoding") 415
body_response other_fault = http_error [] (lit "invalid request body") 400

abbrev pub protobuf_type : GoString
protobuf_type = lit "application/x-protobuf"

abbrev pub json_type : GoString
json_type = lit "application/json"

-- What the handler uses of mime, gzip, proto and protojson; `none` is an error.
pub record Codec (Req Resp : Type 0) : Type 0 where
  pub parse_media_type : GoString → Option GoString
  pub gzip : Stream → Option (Stream × Bool)
  pub unmarshal_proto : GoString → Option Req
  pub unmarshal_json : GoString → Option Req
  pub marshal_proto : Resp → GoString
  pub format_json : Resp → GoString

module _ {W Req Resp : Type 0} (codec : Codec Req Resp) (resolver : TenantResolver W)
    (export : ℕ → Req → W → W × RpcResult Resp) where
  -- the content type, when it is one of the two
  unfoldable pub otlp_type : Request → Option GoString
  otlp_type r = elim (codec.parse_media_type r.content_type) [
    | none ↦ none
    | some t ↦ if t == protobuf_type || t == json_type then some t else none
  ]

  unfoldable pub unmarshal : GoString → GoString → Option Req
  unmarshal content_type body =
      if content_type == json_type then codec.unmarshal_json body else codec.unmarshal_proto body

  -- the handler from the answer of `export` on
  unfoldable pub reply_with : GoString → RpcResult Resp → Response
  unfolding write_error
  reply_with content_type (failed e) = write_error e
  reply_with content_type (response resp) =
      if content_type == protobuf_type
      then record {
        status = 200;
        headers = (lit "Content-Type", protobuf_type) ∷ [];
        body = codec.marshal_proto resp;
      }
      else record {
        status = 200;
        headers = (lit "Content-Type", json_type) ∷ [];
        body = codec.format_json resp;
      }

  -- the handler once the tenant is known
  unfoldable pub serve_tenant : ℕ → Request → W → W × Response
  unfolding otlp_type read_body unmarshal reply_with
  serve_tenant id r w = elim (otlp_type r) [
    | none ↦ (w, http_error [] (lit "unsupported OTLP content type") 415)
    | some t ↦ elim (read_body codec.gzip r) [
      | read_error e ↦ (w, body_response e)
      | got body ↦ elim (unmarshal t body) [
        | none ↦ (w, http_error [] (lit "invalid OTLP request") 400)
        | some req ↦ let (w', result) = export id req w in (w', reply_with t result)
      ]
    ]
  ]

  -- the handler that `Export` returns
  unfoldable pub export_handler : Request → W → W × Response
  unfolding serve_tenant auth_response
  export_handler r w =
      if r.method == lit "POST"
      then (let (w', resolved) = resolver r.api_key w in
          elim resolved [ tenant id ↦ serve_tenant id r w' | rejected e ↦ (w', auth_response e) ])
      else (w, http_error ((lit "Allow", lit "POST") ∷ []) (lit "method not allowed") 405)
