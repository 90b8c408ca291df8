-- ===== src/Auth/Grpc.antt =====
-- internal/auth/grpc.go: the interceptors, over a resolver with its state.
pub mod Intercepted
use ingest.Prelude.{
  Bool, GoString, List, Option, [], ap, append_assoc, arith, drop, drop-append, false,
  if◌then◌else◌, leb, length, length-append, lit, nat_key, none, some, sym, take, take-append,
  text_key, true, ℕ, ◌++◌, ◌-◌, ◌<◌, ◌∙◌, ◌∷◌, ◌≡◌,
}
use ingest.Rpc.{
  RpcResult, Status, failed, internal_code, resource_exhausted, response, unauthenticated,
}
use ingest.Auth.{
  AuthError, Resolution, auth_rate_limited, invalid_api_key, missing_api_key, other_error, rejected,
  tenant,
}
use mathlib.Core.Path.{subst}

abbrev pub api_key_header : GoString
api_key_header = lit "x-api-key"

-- `TenantResolver`, with the state it works on
abbrev pub TenantResolver : Type 0 → Type 0
TenantResolver W = GoString → W → W × Resolution

-- what `metadata.FromIncomingContext` gives: the values of a header, in order
abbrev pub Metadata : Type 0
Metadata = Option (GoString → List GoString)

-- `err.Error()`; the text of any other error comes with it
unfoldable pub error_text : AuthError → GoString
error_text missing_api_key = lit "missing API key"
error_text invalid_api_key = lit "invalid API key"
error_text auth_rate_limited = lit "authentication rate limited"
error_text (other_error e) = e

-- the status that `resolveFromContext` gives for a resolver's error
unfoldable pub auth_status : AuthError → Status
unfolding error_text
auth_status (other_error e) = record {
  code = internal_code;
  message = lit "authentication unavailable";
}
auth_status auth_rate_limited = record {
  code = resource_exhausted;
  message = error_text auth_rate_limited;
}
auth_status e = record { code = unauthenticated; message = error_text e }

module _ {W : Type 0} (resolver : TenantResolver W) where
  unfoldable pub resolve_from_context : Metadata → W → W × RpcResult ℕ
  unfolding auth_status
  resolve_from_context none w =
      (w, failed (record { code = unauthenticated; message = lit "missing metadata" }))
  resolve_from_context (some md) w = elim (md api_key_header) [
    | [] ↦ (
      w,
      failed (record { code = unauthenticated; message = lit "missing x-api-key metadata header" }),
    )
    | api_key ∷ _ ↦
        let (w', r) = resolver api_key w in
        elim r [ tenant id ↦ (w', response id) | rejected e ↦ (w', failed (auth_status e)) ]
  ]

  -- `UnaryInterceptor`; the handler sees the tenant in its context
  unfoldable pub unary_interceptor :
      {Req Resp : Type 0}
      → (Option ℕ → Req → W → W × RpcResult Resp)
      → Metadata
      → Req
      → W
      → W × RpcResult Resp
  unfolding resolve_from_context
  unary_interceptor handler md req w =
      let (w', r) = resolve_from_context md w in
      elim r [ response id ↦ handler (some id) req w' | failed e ↦ (w', failed e) ]

-- internal/auth/context.go: a context, as far as its tenant goes
abbrev pub Context : Type 0
Context = Option ℕ

unfoldable pub with_tenant_id : Context → ℕ → Context
with_tenant_id ctx tenant_id = some tenant_id

unfoldable pub tenant_id_from_context : Context → ℕ × Bool
tenant_id_from_context none = (0, false)
tenant_id_from_context (some tenant_id) = (tenant_id, true)

-- `wrappedStream`: a stream with a context of its own
pub record WrappedStream (S : Type 0) : Type 0 where
  pub stream : S
  pub ctx : Context

-- `StreamInterceptor`; `none` is nil, and the context of the stream has no tenant before
unfoldable pub stream_interceptor :
    {W S : Type 0}
    → TenantResolver W
    → (WrappedStream S → W → W × Option Status)
    → Metadata
    → S
    → W
    → W × Option Status
unfolding resolve_from_context with_tenant_id
stream_interceptor resolver handler md stream w =
    let (w', r) = resolve_from_context resolver md w in
    elim r [
      | failed e ↦ (w', some e)
      | response tenant_id ↦
          handler (record { stream = stream; ctx = with_tenant_id none tenant_id }) w'
    ]

-- `maskKey`
unfoldable pub mask_key : GoString → GoString
mask_key api_key =
    if leb (length api_key) 8
    then lit "***"
    else take 4 api_key ++ lit "..." ++ drop (length api_key - 4) api_key

mask_key_long :
    (s m e : GoString)
    → length s ≡ 4
    → length e ≡ 4
    → 0 < length m
    → mask_key (s ++ (m ++ e)) ≡ s ++ lit "..." ++ e
unfolding mask_key
mask_key_long s m e hs he hm =
    let total = length-append s (m ++ e) in
    let rest = length-append m e in
    let long : leb (length (s ++ (m ++ e))) 8 ≡ false = ground arith in
    let start : take 4 (s ++ (m ++ e)) ≡ s =
      subst (λ n. take n (s ++ (m ++ e)) ≡ s) hs (take-append s (m ++ e)) in
    let cut : length (s ++ m) ≡ length (s ++ (m ++ e)) - 4 =
      (let l = length-append s m in omega arith) in
    let finish : drop (length (s ++ (m ++ e)) - 4) (s ++ (m ++ e)) ≡ e =
      subst (λ n. drop n (s ++ (m ++ e)) ≡ e) cut
        (ap (drop (length (s ++ m))) (sym (append_assoc s m e)) ∙ drop-append (s ++ m) e) in
    rw (mask_key, long, start, finish)

-- What `mask_key` shows of a key of more than eight bytes does not depend on the bytes between
-- its first four and its last four, not even on their number.
pub mask_key-middle :
    (s m m' e : GoString)
    → length s ≡ 4
    → length e ≡ 4
    → 0 < length m
    → 0 < length m'
    → mask_key (s ++ (m ++ e)) ≡ mask_key (s ++ (m' ++ e))
mask_key-middle s m m' e hs he hm hm' =
    mask_key_long s m e hs he hm ∙ sym (mask_key_long s m' e hs he hm')
