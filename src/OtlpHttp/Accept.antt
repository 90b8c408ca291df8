-- ===== src/OtlpHttp/Accept.antt =====
-- Which requests the HTTP handler accepts, and how it answers all others.
use ingest.Prelude.{
  Bool-cases, GoString, Key-false, Key-sound, List, Option-cases, [], ap, ap₂, arith, elem, false,
  inl, inr, lit, nat_key, refl, some, sym, text_beq, text_beq_iff, text_key, true, ℕ, ◌==◌, ◌↔◌,
  ◌∙◌, ◌∷◌, ◌≡◌, ◌⊎◌,
}
use ingest.Auth.{
  AuthError, Resolution, auth_rate_limited, invalid_api_key, missing_api_key, other_error, rejected,
  tenant,
}
use ingest.Auth.Grpc.{TenantResolver, auth_status}
use ingest.Rpc.{RpcResult}
use ingest.OtlpHttp.Body.{Carries, read_body-Carries}
use ingest.OtlpHttp.{
  BodyError, Codec, ReadResult, Request, Response, auth_response, body_response, export_handler,
  got, http_code, http_error, other_fault, otlp_type, read_body, read_error, reply_with,
  serve_tenant, too_large, unmarshal, unsupported_encoding, write_error,
}

-- The HTTP handler answers an authentication error with the status that it would give for the gRPC
-- status of the interceptor for the same error.
pub auth_response-auth_status :
    (e : AuthError) → (auth_response e).status ≡ (write_error (auth_status e)).status
unfolding auth_response auth_status write_error http_error http_code
auth_response-auth_status missing_api_key = refl
auth_response-auth_status invalid_api_key = refl
auth_response-auth_status auth_rate_limited = refl
auth_response-auth_status (other_error e) = refl

-- the statuses of the handler's own refusals
abbrev pub refusals : List ℕ
refusals = 400 ∷ 401 ∷ 405 ∷ 413 ∷ 415 ∷ 429 ∷ 500 ∷ []

body_response-refusals : (e : BodyError) → elem (body_response e).status refusals ≡ true
unfolding body_response http_error
body_response-refusals too_large = refl
body_response-refusals unsupported_encoding = refl
body_response-refusals other_fault = refl

auth_response-refusals : (e : AuthError) → elem (auth_response e).status refusals ≡ true
unfolding auth_response http_error
auth_response-refusals missing_api_key = refl
auth_response-refusals invalid_api_key = refl
auth_response-refusals auth_rate_limited = refl
auth_response-refusals (other_error e) = refl

ReadResult-cases :
    (r : ReadResult) → ((b : GoString) × (r ≡ got b)) ⊎ ((e : BodyError) × (r ≡ read_error e))
ReadResult-cases (got b) = inl (b, refl)
ReadResult-cases (read_error e) = inr (e, refl)

Resolution-cases :
    (r : Resolution) → ((id : ℕ) × (r ≡ tenant id)) ⊎ ((e : AuthError) × (r ≡ rejected e))
Resolution-cases (tenant id) = inl (id, refl)
Resolution-cases (rejected e) = inr (e, refl)

protobuf-json : (lit "application/x-protobuf" == lit "application/json") ≡ false
unfolding lit text_beq
protobuf-json = refl

module _ {W Req Resp : Type 0} (codec : Codec Req Resp) (resolver : TenantResolver W)
    (export : ℕ → Req → W → W × RpcResult Resp) where
  -- The content type, and the decoding that goes with it.
  abbrev pub Decodes : GoString → GoString → Req → Type 0
  Decodes content_type body req =
      ((content_type ≡ lit "application/json") × (codec.unmarshal_json body ≡ some req))
      ⊎ ((content_type ≡ lit "application/x-protobuf") × (codec.unmarshal_proto body ≡ some req))

  -- A POST request with the key of a tenant, one of the two content types, and a body that is
  -- read in full within the limit and decodes.
  pub record IsAccepted (r : Request) (w : W) : Type 0 where
    pub tenant_id : ℕ
    pub world : W
    pub content_type : GoString
    pub body : GoString
    pub req : Req
    pub posted : r.method ≡ lit "POST"
    pub resolved : resolver r.api_key w ≡ (world, tenant tenant_id)
    pub typed : codec.parse_media_type r.content_type ≡ some content_type
    pub carried : Carries codec.gzip r body
    pub decoded : Decodes content_type body req

  -- what `export_handler` did
  abbrev pub Outcome : Request → W → W × Response → Type 0
  Outcome r w result =
      ((a : IsAccepted r w) × (result ≡ (
          let done = export a.tenant_id a.req a.world in
          (done.0, reply_with codec resolver export a.content_type done.1))))
      ⊎ (¬ IsAccepted r w)
        × ((result.0 ≡ w) ⊎ (result.0 ≡ (resolver r.api_key w).0))
        × (elem result.1.status refusals ≡ true)

  unmarshal-Decodes :
      (r : Request) (t body : GoString) (req : Req)
      → ((otlp_type codec resolver export r ≡ some t)
          × (unmarshal codec resolver export t body ≡ some req))
        ↔ ((codec.parse_media_type r.content_type ≡ some t) × Decodes t body req)
  unfolding otlp_type unmarshal
  unmarshal-Decodes r t body req = (forth, back)
    where
      forth :
          (otlp_type codec resolver export r ≡ some t)
            × (unmarshal codec resolver export t body ≡ some req)
          → (codec.parse_media_type r.content_type ≡ some t) × Decodes t body req
      forth (h, k) = elim (Option-cases (codec.parse_media_type r.content_type)) [
        | inl e ↦ absurd (ground (arith, h, e))
        | inr (u, e) ↦ elim (Bool-cases (u == lit "application/json")) [
          | inl j ↦
              let same : u ≡ t = ground (arith, h, e, j) in
              let typed = Key-sound u (lit "application/json") j in
              (e ∙ ap (λ x. some x) same, inl (sym same ∙ typed, ground (arith, k, j, same)))
          | inr j ↦ elim (Bool-cases (u == lit "application/x-protobuf")) [
            | inl q ↦
                let same : u ≡ t = ground (arith, h, e, q) in
                let typed = Key-sound u (lit "application/x-protobuf") q in
                (e ∙ ap (λ x. some x) same, inr (sym same ∙ typed, ground (arith, k, j, same)))
            | inr q ↦ absurd (ground (arith, h, e, j, q))
          ]
        ]
      ]

      back :
          (codec.parse_media_type r.content_type ≡ some t) × Decodes t body req
          → (otlp_type codec resolver export r ≡ some t)
            × (unmarshal codec resolver export t body ≡ some req)
      back (h, inl (e, k)) = ground (arith, h, e, k, text_beq_iff t (lit "application/json"))
      back (h, inr (e, k)) = ground (
        arith,
        h,
        e,
        k,
        text_beq_iff t (lit "application/x-protobuf"),
        ap (λ x. x == lit "application/json") e,
        protobuf-json,
      )

  -- What the handler makes of an accepted request.
  accepted_type :
      {r : Request} {w : W} (a : IsAccepted r w)
      → (otlp_type codec resolver export r ≡ some a.content_type)
        × (unmarshal codec resolver export a.content_type a.body ≡ some a.req)
        × (read_body codec.gzip r ≡ got a.body)
  accepted_type {r} a =
      let (t, u) = (unmarshal-Decodes r a.content_type a.body a.req).1 (a.typed, a.decoded) in
      (t, u, (read_body-Carries codec.gzip r a.body).1 a.carried)

  serve_tenant-Outcome :
      (r : Request) (w w' : W) (id : ℕ)
      → r.method ≡ lit "POST"
      → resolver r.api_key w ≡ (w', tenant id)
      → Outcome r w (serve_tenant codec resolver export id r w')
  unfolding serve_tenant http_error
  serve_tenant-Outcome r w w' id posted resolved =
      let same : w' ≡ (resolver r.api_key w).0 = sym (ap (λ x. x.0) resolved) in
      elim (Option-cases (otlp_type codec resolver export r)) [
        | inl h ↦
            rw (serve_tenant, h) (inr ((λ a. absurd (cc (h, (accepted_type a).0))), inr same, refl))
        | inr (t, h) ↦ elim (ReadResult-cases (read_body codec.gzip r)) [
          | inl (body, h2) ↦ elim (Option-cases (unmarshal codec resolver export t body)) [
            | inl h3 ↦
                rw (serve_tenant, h, h2, h3)
                  (inr ((λ a. absurd (ground (arith, h, h2, h3, accepted_type a))), inr same, refl))
            | inr (req, h3) ↦
                rw (serve_tenant, h, h2, h3)
                  (inl (
                    record {
                      tenant_id = id;
                      world = w';
                      content_type = t;
                      body = body;
                      req = req;
                      posted = posted;
                      resolved = resolved;
                      typed = ((unmarshal-Decodes r t body req).0 (h, h3)).0;
                      carried = (read_body-Carries codec.gzip r body).0 h2;
                      decoded = ((unmarshal-Decodes r t body req).0 (h, h3)).1;
                    },
                    refl,
                  ))
          ]
          | inr (e, h2) ↦
              rw (serve_tenant, h, h2)
                (inr (
                  (λ a. absurd (cc (h2, (accepted_type a).2))),
                  inr same,
                  body_response-refusals e,
                ))
        ]
      ]

  -- The handler calls `export` only for a request that it accepts: a POST with the key of a
  -- tenant, a protobuf or JSON content type and a body of at most 16 MiB, inflated when it is
  -- gzip, that is read without an error and decodes. The answer is then the reply to the result
  -- of `export`. A request that is not such leaves the pipeline as the resolver, or nobody, left it, and
  -- is answered with one of the statuses 400, 401, 405, 413, 415, 429 and 500.
  pub export_handler-Outcome :
      (r : Request) (w : W) → Outcome r w (export_handler codec resolver export r w)
  unfolding export_handler http_error
  export_handler-Outcome r w = elim (Bool-cases (r.method == lit "POST")) [
    | inl h ↦
        let posted = (text_key.beq_iff r.method (lit "POST")).0 h in
        elim (Resolution-cases (resolver r.api_key w).1) [
          | inl (id, h2) ↦
              rw (export_handler, h, h2)
                (serve_tenant-Outcome r w (resolver r.api_key w).0 id posted
                  (ap₂ (λ x y. (x, y)) refl h2))
          | inr (e, h2) ↦
              rw (export_handler, h, h2)
                (inr (
                  (λ a. absurd (cc (h2, ap (λ x. x.1) a.resolved))),
                  inr refl,
                  auth_response-refusals e,
                ))
        ]
    | inr h ↦
        rw (export_handler, h)
          (inr ((λ a. absurd (Key-false r.method (lit "POST") h a.posted)), inl refl, refl))
  ]
