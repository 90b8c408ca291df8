-- ===== src/Spans/Mapper/Rows.antt =====
-- The rows of a request: their attributes, and the usage that is reported with them.
use ingest.Spans.Row.{Row}
use ingest.Prelude.{
  Bool-cases, GoString, List, List-cases, Option, [], arith, inl, inr, length, length-append,
  length-map, map, nat_beq, nat_key, refl, text_key, ℕ, ◌++◌, ◌+◌, ◌-◌, ◌∷◌, ◌≡◌,
}
use ingest.GoText.{GoText}
use ingest.GoMap.{IsMap, at}
use ingest.GoMap.Laws.{insert-IsMap}
use ingest.GoFloat.{GoFloat}
use ingest.Signals.{AreUsed, ResourceUsage, report, total_records, total_records-report}
use ingest.Infra.Otlp.{GoAny, KeyValue, StringMap, attrs_to_map, first_non_empty}
use ingest.Infra.Otlp.Typed.{attrs_to_map-IsMap}
use ingest.Infra.Fingerprint.{ResourceDimensions, resolve_resource}
use ingest.Spans.{Span}
use ingest.Spans.Mapper.{
  ResourceSpans, append_rows, build_span_row, fill_all, fill_from_legacy, legacy_messaging_keys,
  map_request, map_resources, normalize_messaging_attrs, resource_base_attrs, scope_count,
  span_count,
}
use ingest.Spans.Mapper.Attributes.{AreAttributes, merge_and_cap_attrs-AreAttributes}

fill_from_legacy-IsMap :
    (key : GoString) (legacy : List GoString) (m : StringMap)
    → IsMap m
    → IsMap (fill_from_legacy key legacy m)
unfolding fill_from_legacy
fill_from_legacy-IsMap key legacy m d = elim (List-cases (at key m)) [
  | inl e ↦ elim (List-cases (first_non_empty m legacy)) [
    | inl e2 ↦ rw (fill_from_legacy, e, e2) d
    | inr (c, v, e2) ↦ rw (fill_from_legacy, e, e2) (insert-IsMap key (c ∷ v) m d)
  ]
  | inr (c, v, e) ↦ rw (fill_from_legacy, e) d
]

fill_all-IsMap :
    (ks : List (GoString × List GoString)) (m : StringMap) → IsMap m → IsMap (fill_all ks m)
unfolding fill_all
fill_all-IsMap [] m d = d
fill_all-IsMap ((key, legacy) ∷ ks) m d =
    fill_all-IsMap ks (fill_from_legacy key legacy m) (fill_from_legacy-IsMap key legacy m d)

normalize_messaging_attrs-IsMap : (m : StringMap) → IsMap m → IsMap (normalize_messaging_attrs m)
unfolding normalize_messaging_attrs
normalize_messaging_attrs-IsMap m d = fill_all-IsMap legacy_messaging_keys m d

module _ (G : GoFloat) (json : GoAny (GoFloat.Float G) → Option GoString) (text : GoText) where
  open G use {Float}

  -- The attributes of the row of a span hold at most 128 keys, a key once; none of them has a
  -- column of its own; each value is the span's, legacy messaging names filled in, or the
  -- resource's, the span's first; on a GenAI span the identity keys of the span are left out; and
  -- if both together have at most 128 keys, all others are there.
  pub build_span_row-AreAttributes :
      (tenant_id : ℕ) (res_attrs : List (KeyValue Float)) (s : Span Float)
      → let res = attrs_to_map G json res_attrs in
        let row =
          build_span_row G json text tenant_id (resource_base_attrs res) (resolve_resource res) s in
        AreAttributes row.gen_ai.present res
          (normalize_messaging_attrs (attrs_to_map G json s.attributes))
          row.attributes
  unfolding build_span_row
  build_span_row-AreAttributes tenant_id res_attrs s =
      merge_and_cap_attrs-AreAttributes _ (attrs_to_map G json res_attrs)
        (normalize_messaging_attrs (attrs_to_map G json s.attributes))
        (attrs_to_map-IsMap G json res_attrs)
        (normalize_messaging_attrs-IsMap (attrs_to_map G json s.attributes)
          (attrs_to_map-IsMap G json s.attributes))

  length-append_rows :
      (tenant_id : ℕ) (base : StringMap) (dims : ResourceDimensions)
      (scopes : List (List (Span Float))) (rows : List Row)
      → length (append_rows G json text tenant_id base dims scopes rows)
        ≡ length rows + scope_count G json text scopes
  unfolding append_rows scope_count
  length-append_rows tenant_id base dims [] rows = omega arith
  length-append_rows tenant_id base dims (ss ∷ scopes) rows =
      let f = build_span_row G json text tenant_id base dims in
      omega (
        arith,
        length-append_rows tenant_id base dims scopes (rows ++ map f ss),
        length-append rows (map f ss),
        length-map ss f,
      )

  -- n rows, and a usage of n records
  abbrev pub Counted : ℕ → List Row × List ResourceUsage → Type 0
  Counted n r = (length r.0 ≡ n) × (total_records r.1 ≡ n) × AreUsed r.1

  map_resources-Counted :
      (tenant_id : ℕ) (req : List (ResourceSpans G json text)) (rows : List Row)
      (usage : List ResourceUsage) (n : ℕ)
      → Counted n (rows, usage)
      → Counted
          (n + span_count G json text req)
          (map_resources G json text tenant_id req rows usage)
  unfolding map_resources span_count
  map_resources-Counted tenant_id [] rows usage n h = (omega arith, omega arith, h.2)
  map_resources-Counted tenant_id ((res_attrs, scopes) ∷ req) rows usage n h =
      let res = attrs_to_map G json res_attrs in
      let dims = resolve_resource res in
      let rows' = append_rows G json text tenant_id (resource_base_attrs res) dims scopes rows in
      let grown = length-append_rows tenant_id (resource_base_attrs res) dims scopes rows in
      let reported =
        total_records-report dims.service dims.environment (length rows' - length rows) usage h.2 in
      let rest =
        map_resources-Counted tenant_id req rows'
          (report dims.service dims.environment (length rows' - length rows) usage)
          (n + scope_count G json text scopes)
          (omega (arith, h.0), omega (arith, h.0, h.1, reported.0), reported.1) in
      (omega (arith, rest.0), omega (arith, rest.1), rest.2)

  -- A trace request with n spans becomes n rows, and the usage that goes to the statistics counts
  -- n records, at least one in each of its entries.
  pub map_request-Counted :
      (tenant_id : ℕ) (req : List (ResourceSpans G json text))
      → Counted (span_count G json text req) (map_request G json text tenant_id req)
  unfolding map_request
  map_request-Counted tenant_id req = elim (Bool-cases (nat_beq (span_count G json text req) 0)) [
    | inl e ↦ rw (map_request, e) (ground arith, ground arith, tt)
    | inr e ↦
        let all = map_resources-Counted tenant_id req [] [] 0 (refl, refl, tt) in
        rw (map_request, e) (omega (arith, all.0), omega (arith, all.1), all.2)
  ]
