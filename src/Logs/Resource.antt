-- ===== src/Logs/Resource.antt =====
-- `newResourceContext` and `resolveResource` of internal/ingestion/logs.
use ingest.Prelude.{
  Bool, Bool-cases, GoString, List, List-cases, [], ap, arith, elem, false, if◌then◌else◌, inl, inr,
  nat_key, not, refl, sym, text_key, true, ℕ, ◌&&◌, ◌==◌, ◌∙◌, ◌∷◌, ◌≡◌,
}
use ingest.GoMap.{at, insert}
use ingest.GoMap.Laws.{lookup-insert}
use ingest.Signals.{is_empty}
use ingest.Infra.Otlp.{StringMap}
use ingest.Infra.Fingerprint.{resolve_resource}
use ingest.Logs.{
  missing_keys, new_resource_context, patch, resolve_log_resource, resource_fallback_keys,
}

at-insert :
    (k j v : GoString) (m : StringMap) → at j (insert k v m) ≡ (if k == j then v else at j m)
unfolding at
at-insert k j v m = ground (arith, lookup-insert k j v m)

elem-missing_keys :
    (a : GoString) (ks : List GoString) (res : StringMap)
    → elem a (missing_keys ks res) ≡ (elem a ks && is_empty (at a res))
unfolding missing_keys
elem-missing_keys a [] res = refl
elem-missing_keys a (k ∷ ks) res = elim (Bool-cases (k == a)) [
  | inl e ↦
      let here = ap (λ x. at x res) ((text_key.beq_iff k a).0 e) in
      elim (List-cases (at k res)) [
        | inl h ↦ rw (missing_keys, h) (ground (arith, sym here ∙ h))
        | inr (c, v, h) ↦
            rw (missing_keys, h) (ground (arith, elem-missing_keys a ks res, sym here ∙ h))
      ]
  | inr e ↦ elim (List-cases (at k res)) [
    | inl h ↦ rw (missing_keys, h) (ground (arith, elem-missing_keys a ks res))
    | inr (c, v, h) ↦ rw (missing_keys, h) (ground (arith, elem-missing_keys a ks res))
  ]
]

patched-true : (ks : List GoString) (attrs res : StringMap) → (patch ks attrs res true).1 ≡ true
unfolding patch
patched-true [] attrs res = refl
patched-true (k ∷ ks) attrs res = elim (List-cases (at k attrs)) [
  | inl e ↦ rw (patch, e) (patched-true ks attrs res)
  | inr (c, v, e) ↦ rw (patch, e) (patched-true ks attrs (insert k (c ∷ v) res))
]

patch_skip :
    (k : GoString) (ks : List GoString) (attrs res : StringMap) (p : Bool)
    → at k attrs ≡ []
    → patch (k ∷ ks) attrs res p ≡ patch ks attrs res p
unfolding patch
patch_skip k ks attrs res p e = rw (patch, e)

patch_set :
    (k : GoString) (ks : List GoString) (attrs res : StringMap) (p : Bool) (c : ℕ) (v : GoString)
    → at k attrs ≡ c ∷ v
    → patch (k ∷ ks) attrs res p ≡ patch ks attrs (insert k (c ∷ v) res) true
unfolding patch
patch_set k ks attrs res p c v e = rw (patch, e)

patched-false :
    (ks : List GoString) (attrs res : StringMap)
    → (patch ks attrs res false).1 ≡ false
    → (patch ks attrs res false).0 ≡ res
unfolding patch
patched-false [] attrs res h = refl
patched-false (k ∷ ks) attrs res h = elim (List-cases (at k attrs)) [
  | inl e ↦
      rw (patch, e)
        (patched-false ks attrs res (sym (ap (λ x. x.1) (patch_skip k ks attrs res false e)) ∙ h))
  | inr (c, v, e) ↦
      absurd
        (cc (patched-true ks attrs (insert k (c ∷ v) res), patch_set k ks attrs res false c v e, h))
]

-- the value of a key after the loop
abbrev choice : GoString → List GoString → StringMap → StringMap → GoString
choice a ks attrs res = if elem a ks && not (is_empty (at a attrs)) then at a attrs else at a res

at-patch :
    (a : GoString) (ks : List GoString) (attrs res : StringMap) (p : Bool)
    → at a (patch ks attrs res p).0 ≡ choice a ks attrs res
unfolding patch
at-patch a [] attrs res p = refl
at-patch a (k ∷ ks) attrs res p = elim (List-cases (at k attrs)) [
  | inl e ↦ ap (λ x. at a x.0) (patch_skip k ks attrs res p e) ∙ at-patch a ks attrs res p ∙ skip e
  | inr (c, v, e) ↦
      ap (λ x. at a x.0) (patch_set k ks attrs res p c v e)
      ∙ at-patch a ks attrs (insert k (c ∷ v) res) true
      ∙ set c v e
]
  where
    skip : (at k attrs ≡ []) → choice a ks attrs res ≡ choice a (k ∷ ks) attrs res
    skip e = elim (Bool-cases (k == a)) [
      | inl q ↦ ground (arith, ap (λ x. at x attrs) (sym ((text_key.beq_iff k a).0 q)) ∙ e)
      | inr q ↦ ground arith
    ]

    set :
        (c : ℕ) (v : GoString)
        → (at k attrs ≡ c ∷ v)
        → choice a ks attrs (insert k (c ∷ v) res) ≡ choice a (k ∷ ks) attrs res
    set c v e = elim (Bool-cases (k == a)) [
      | inl q ↦ ground (
        arith,
        at-insert k a (c ∷ v) res,
        ap (λ x. at x attrs) (sym ((text_key.beq_iff k a).0 q)) ∙ e,
      )
      | inr q ↦ ground (arith, at-insert k a (c ∷ v) res)
    ]

-- What `resolveResource` gives for a record: a fallback key that is empty or missing in the
-- resource has the record's value, every other key the resource's; and the dimensions, cached or
-- not, are those of the resulting map.
pub resolve_log_resource_lem :
    (m attrs : StringMap)
    → let r = resolve_log_resource (new_resource_context m) attrs in
      (r.1 ≡ resolve_resource r.0)
      × ((a : GoString)
          → at a r.0 ≡ (
              if elem a resource_fallback_keys && is_empty (at a m) && not (is_empty (at a attrs))
              then at a attrs
              else at a m))
unfolding resolve_log_resource new_resource_context
resolve_log_resource_lem m attrs =
    let missing = missing_keys resource_fallback_keys m in
    elim (Bool-cases (patch missing attrs m false).1) [
      | inl e ↦
          rw (resolve_log_resource, new_resource_context, e)
            (
              refl,
              λ a.
                  at-patch a missing attrs m false
                  ∙ ground (arith, elem-missing_keys a resource_fallback_keys m),
            )
      | inr e ↦
          rw (resolve_log_resource, new_resource_context, e)
            (
              refl,
              λ a.
                  ap (at a) (sym (patched-false missing attrs m e))
                  ∙ at-patch a missing attrs m false
                  ∙ ground (arith, elem-missing_keys a resource_fallback_keys m),
            )
    ]
