-- ===== src/OtlpHttp/Body.antt =====
-- The body that `readBody` of internal/ingestion/otlphttp reads, and its limit.
use ingest.Prelude.{
  Bool, Bool-cases, GoString, Option, Option-cases, [], ap, ap₂, arith, false, inl, inr, length,
  lit, ltb, nat_key, none, some, sym, text_beq, text_key, true, ℕ, ◌==◌, ◌↔◌, ◌∙◌, ◌≡◌, ◌≤◌, ◌⊎◌,
}
use ingest.OtlpHttp.{
  ReadResult, Request, Stream, got, join_close, max_body_bytes, other_fault, read_all, read_body,
  read_error, unsupported_encoding,
}

read_all-got :
    (limit : ℕ) (s : Stream) (body : GoString)
    → (read_all limit s ≡ got body)
      ↔ ((length body ≤ limit) × (s ≡ record { bytes = body; fault = false }))
unfolding read_all
read_all-got limit s body = (forth, back)
  where
    forth :
        read_all limit s ≡ got body
        → (length body ≤ limit) × (s ≡ record { bytes = body; fault = false })
    forth h = elim (Bool-cases (ltb limit (length s.bytes))) [
      | inl long ↦ ground arith
      | inr short ↦ elim (Bool-cases s.fault) [
        | inl f ↦ ground arith
        | inr f ↦
            let same : s.bytes ≡ body = ground arith in
            (ground (arith, ap length same), ap₂ (λ b g. record { bytes = b; fault = g }) same f)
      ]
    ]

    back :
        (length body ≤ limit) × (s ≡ record { bytes = body; fault = false })
        → read_all limit s ≡ got body
    back (h, e) = ap (read_all limit) e ∙ ground arith

join_close-got :
    (closed : Bool) (r : ReadResult) (body : GoString)
    → (join_close closed r ≡ got body) ↔ ((closed ≡ true) × (r ≡ got body))
unfolding join_close
join_close-got closed (got b) body = ground arith
join_close-got closed (read_error e) body = ground arith

module _ (gzip : Stream → Option (Stream × Bool)) where
  -- `body` is what the request carries: its bytes as they are, or inflated, without an error and
  -- within the limit.
  abbrev pub Carries : Request → GoString → Type 0
  Carries r body =
      (length body ≤ max_body_bytes)
      × (((r.content_encoding ≡ []) ⊎ (r.content_encoding ≡ lit "identity"))
            × (r.body ≡ record { bytes = body; fault = false })
          ⊎ (r.content_encoding ≡ lit "gzip")
            × (gzip r.body ≡ some (record { bytes = body; fault = false }, true)))

  read_body_plain :
      (r : Request)
      → (r.content_encoding ≡ []) ⊎ (r.content_encoding ≡ lit "identity")
      → read_body gzip r ≡ read_all max_body_bytes r.body
  unfolding read_body text_beq lit
  read_body_plain r (inl e) = rw (read_body, e)
  read_body_plain r (inr e) = rw (read_body, e)

  read_body_none :
      (r : Request)
      → (r.content_encoding == []) ≡ false
      → (r.content_encoding == lit "identity") ≡ false
      → (r.content_encoding == lit "gzip") ≡ false
      → read_body gzip r ≡ read_error unsupported_encoding
  unfolding read_body
  read_body_none r a b c = rw (read_body, a, b, c)

  abbrev inflate : Option (Stream × Bool) → ReadResult
  inflate none = read_error other_fault
  inflate (some (inflated, closed)) = join_close closed (read_all max_body_bytes inflated)

  read_body_gzip :
      (r : Request) → r.content_encoding ≡ lit "gzip" → read_body gzip r ≡ inflate (gzip r.body)
  unfolding read_body text_beq lit
  read_body_gzip r e = elim (Option-cases (gzip r.body)) [
    | inl h ↦ rw (read_body, e, h)
    | inr (x, h) ↦ rw (read_body, e, h)
  ]

  inflate-got :
      (z : Option (Stream × Bool)) (body : GoString)
      → inflate z ≡ got body
        ↔ (length body ≤ max_body_bytes) × (z ≡ some (record { bytes = body; fault = false }, true))
  inflate-got none body = ((λ h. absurd (cc)), (λ h. absurd (cc h.1)))
  inflate-got (some (s, closed)) body = (
    (λ h.
        let (c, q) = (join_close-got closed (read_all max_body_bytes s) body).0 h in
        let (l, e) = (read_all-got max_body_bytes s body).0 q in (l, ap₂ (λ x y. some (x, y)) e c)),
    (λ h.
        let e : s ≡ record { bytes = body; fault = false } = cc in
        let c : closed ≡ true = cc in
        (join_close-got closed (read_all max_body_bytes s) body).1
          (c, (read_all-got max_body_bytes s body).1 (h.0, e))),
  )

  -- `read_body` gives exactly what the request carries
  pub read_body-Carries :
      (r : Request) (body : GoString) → read_body gzip r ≡ got body ↔ Carries r body
  read_body-Carries r body = (forth, back)
    where
      forth : read_body gzip r ≡ got body → Carries r body
      forth h = elim (Bool-cases (r.content_encoding == [])) [
        | inl e1 ↦
            let sound = (text_key.beq_iff r.content_encoding []).0 e1 in
            let (l, q) =
              (read_all-got max_body_bytes r.body body).0
                (sym (read_body_plain r (inl sound)) ∙ h) in
            (l, inl (inl sound, q))
        | inr e1 ↦ elim (Bool-cases (r.content_encoding == lit "identity")) [
          | inl e2 ↦
              let sound = (text_key.beq_iff r.content_encoding (lit "identity")).0 e2 in
              let (l, q) =
                (read_all-got max_body_bytes r.body body).0
                  (sym (read_body_plain r (inr sound)) ∙ h) in
              (l, inl (inr sound, q))
          | inr e2 ↦ elim (Bool-cases (r.content_encoding == lit "gzip")) [
            | inl e3 ↦
                let sound = (text_key.beq_iff r.content_encoding (lit "gzip")).0 e3 in
                let (l, q) =
                  (inflate-got (gzip r.body) body).0 (sym (read_body_gzip r sound) ∙ h) in
                (l, inr (sound, q))
            | inr e3 ↦ absurd (cc (read_body_none r e1 e2 e3, h))
          ]
        ]
      ]

      back : Carries r body → read_body gzip r ≡ got body
      back (l, inl (e, q)) =
          read_body_plain r e ∙ (read_all-got max_body_bytes r.body body).1 (l, q)
      back (l, inr (e, q)) = read_body_gzip r e ∙ (inflate-got (gzip r.body) body).1 (l, q)
