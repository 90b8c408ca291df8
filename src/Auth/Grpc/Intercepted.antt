-- ===== src/Auth/Grpc/Intercepted.antt =====
-- Which calls the interceptors of internal/auth/grpc.go let through.
use ingest.Prelude.{
  GoString, List, List-cases, Option, [], ap, inl, inr, lit, nat_key, none, refl, some, text_key, ℕ,
  ◌∷◌, ◌≡◌, ◌⊎◌,
}
use ingest.Rpc.{RpcResult, Status, failed, response, unauthenticated}
use ingest.Auth.{AuthError, Resolution, rejected, tenant}
use ingest.Auth.Grpc.{
  Context, Metadata, TenantResolver, WrappedStream, api_key_header, auth_status,
  resolve_from_context, stream_interceptor, unary_interceptor, with_tenant_id,
}

Resolution-cases :
    (r : Resolution) → ((id : ℕ) × (r ≡ tenant id)) ⊎ ((e : AuthError) × (r ≡ rejected e))
Resolution-cases (tenant id) = inl (id, refl)
Resolution-cases (rejected e) = inr (e, refl)

module _ {W : Type 0} (resolver : TenantResolver W) where
  -- the metadata has the key as the first value of the header
  abbrev pub HasKey : Metadata → GoString → Type 0
  HasKey md api_key =
      (values : GoString → List GoString) × (others : List GoString) × (md ≡ some values)
      × (values api_key_header ≡ api_key ∷ others)

  abbrev pub LacksKey : Metadata → Type 0
  LacksKey md =
      (md ≡ none)
      ⊎ ((values : GoString → List GoString) × (md ≡ some values) × (values api_key_header ≡ []))

  -- The resolver gave the tenant for the key of the call.
  abbrev pub Accepts : Metadata → W → W → ℕ → Type 0
  Accepts md w w' id =
      (api_key : GoString) × HasKey md api_key × (resolver api_key w ≡ (w', tenant id))

  -- The call has no key, and the resolver was not asked, or the resolver rejected the key.
  abbrev pub Refuses : Metadata → W → W → Status → Type 0
  Refuses md w w' e =
      (LacksKey md × (w' ≡ w) × (e.code ≡ unauthenticated))
      ⊎ ((api_key : GoString) × (err : AuthError) × HasKey md api_key
          × (resolver api_key w ≡ (w', rejected err))
          × (e ≡ auth_status err))

  Resolves : Metadata → W → Type 0
  Resolves md w =
      ((id : ℕ) × (w' : W) × Accepts md w w' id
        × (resolve_from_context resolver md w ≡ (w', response id)))
      ⊎ ((e : Status) × (w' : W) × Refuses md w w' e
          × (resolve_from_context resolver md w ≡ (w', failed e)))

  resolve_from_context-Resolves : (md : Metadata) (w : W) → Resolves md w
  unfolding Resolves resolve_from_context
  resolve_from_context-Resolves none w = inr (_, w, inl (inl refl, refl, refl), refl)
  resolve_from_context-Resolves (some values) w = elim (List-cases (values api_key_header)) [
    | inl e ↦ inr (
      record { code = unauthenticated; message = lit "missing x-api-key metadata header" },
      w,
      inl (inr (values, refl, e), refl, refl),
      rw (resolve_from_context, e),
    )
    | inr (api_key, others, e) ↦
        let w' = (resolver api_key w).0 in
        elim (Resolution-cases (resolver api_key w).1) [
          | inl (id, known) ↦ inl (
            id,
            w',
            (api_key, (values, others, refl, e), ap (λ r. (w', r)) known),
            rw (resolve_from_context, e, known),
          )
          | inr (err, known) ↦ inr (
            auth_status err,
            w',
            inr (api_key, err, (values, others, refl, e), ap (λ r. (w', r)) known, refl),
            rw (resolve_from_context, e, known),
          )
        ]
  ]

  -- Both interceptors, on every call: either the resolver gave a tenant for the first x-api-key
  -- header, and the handler of a unary call and that of a stream are run with this tenant in their
  -- context; or no handler is run, and both calls fail with one status, which is Unauthenticated
  -- without asking the resolver where there is no header, and the status of the resolver's error
  -- otherwise.
  pub interceptors-Authenticated :
      {Req Resp S : Type 0} (handler : Context → Req → W → W × RpcResult Resp)
      (stream_handler : WrappedStream S → W → W × Option Status) (md : Metadata) (req : Req)
      (stream : S) (w : W)
      → ((id : ℕ) × (w' : W) × Accepts md w w' id
          × (unary_interceptor resolver handler md req w ≡ handler (some id) req w')
          × (stream_interceptor resolver stream_handler md stream w
              ≡ stream_handler (record { stream = stream; ctx = some id }) w'))
        ⊎ ((e : Status) × (w' : W) × Refuses md w w' e
            × (unary_interceptor resolver handler md req w ≡ (w', failed e))
            × (stream_interceptor resolver stream_handler md stream w ≡ (w', some e)))
  unfolding Resolves with_tenant_id unary_interceptor stream_interceptor
  interceptors-Authenticated handler stream_handler md req stream w =
      elim (resolve_from_context-Resolves md w) [
        | inl (id, w', accepted, e) ↦ inl (
          id,
          w',
          accepted,
          rw (unary_interceptor, ap (λ r. r.1) e, ap (λ r. r.0) e),
          rw (stream_interceptor, ap (λ r. r.1) e, ap (λ r. r.0) e),
        )
        | inr (status, w', refused, e) ↦ inr (
          status,
          w',
          refused,
          rw (unary_interceptor, ap (λ r. r.1) e, ap (λ r. r.0) e),
          rw (stream_interceptor, ap (λ r. r.1) e, ap (λ r. r.0) e),
        )
      ]
