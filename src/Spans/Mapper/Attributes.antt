-- ===== src/Spans/Mapper/Attributes.antt =====
-- The attributes of a row: `resourceBaseAttrs` and `mergeAndCapAttrs`.
use ingest.Prelude.{
  Bool, Bool-cases, GoString, List, Option, [], ap, arith, elem, false, if◌then◌else◌, inl, inr,
  lit, nat_key, none, not, refl, some, sym, text_key, true, ◌&&◌, ◌+◌, ◌==◌, ◌∙◌, ◌∷◌, ◌≡◌, ◌≤◌,
  ◌⊎◌,
}
use ingest.GoMap.{IsMap, lookup, size}
use ingest.Infra.Otlp.{StringMap, cap_string_map}
use ingest.Infra.Otlp.Cap.{IsCapped, cap_string_map-IsCapped}
use ingest.Signals.{copy_keys, filter_keys}
use ingest.Signals.Maps.{
  copy_keys-IsMap, filter_keys-IsMap, lookup-copy_keys, lookup-filter_keys, prefer, size-copy_keys,
  size-filter_keys,
}
use ingest.Spans.{is_promoted_key, max_span_attributes, promoted_span_keys}
use ingest.Spans.Mapper.{has_own, keep, merge_and_cap_attrs, resource_base_attrs}

-- the value that the merge takes for a key, before the cap
abbrev pub chosen : Bool → GoString → StringMap → StringMap → Option GoString
chosen gen_ai a base span =
    if keep gen_ai a then prefer (lookup a span) (lookup a base) else lookup a base

has_own-none :
    (gen_ai : Bool) (a : GoString) (m : StringMap)
    → has_own gen_ai m ≡ false
    → keep gen_ai a ≡ true
    → lookup a m ≡ none
unfolding has_own lookup
has_own-none gen_ai a [] h k = refl
has_own-none gen_ai a ((j, v) ∷ m) h k = elim (Bool-cases (j == a)) [
  | inl e ↦ let same = (text_key.beq_iff j a).0 e in ground (arith, ap (keep gen_ai) same)
  | inr e ↦ ground (arith, has_own-none gen_ai a m)
]

-- `m` is what the merge may keep: its values are the chosen ones, its size is bounded, and when
-- there is room every chosen value is there.
record IsMerge (gen_ai : Bool) (base span m : StringMap) : Type 0 where
  is_map : IsMap m
  bounded : size m ≤ max_span_attributes
  sound : (a v : GoString) → lookup a m ≡ some v → chosen gen_ai a base span ≡ some v
  complete :
      size base + size span ≤ max_span_attributes
      → (a : GoString) → lookup a m ≡ chosen gen_ai a base span

merge_and_cap_attrs-IsMerge :
    (gen_ai : Bool) (base span : StringMap)
    → IsMap base
    → IsMap span
    → size base ≤ max_span_attributes
    → IsMerge gen_ai base span (merge_and_cap_attrs base span gen_ai)
unfolding merge_and_cap_attrs
merge_and_cap_attrs-IsMerge gen_ai base span db ds small = elim (Bool-cases (has_own gen_ai span)) [
  | inl e ↦
      let copied = copy_keys (keep gen_ai) base span in
      let is = lookup-copy_keys (keep gen_ai) in
      let c =
        cap_string_map-IsCapped copied max_span_attributes
          (copy_keys-IsMap (keep gen_ai) base span db) in
      rw e (record {
        is_map = c.is_map;
        bounded = c.bounded (omega arith);
        sound = λ a v h. sym (is a base span ds) ∙ c.kept a v h;
        complete = λ fits a.
            ap (lookup a) (c.small (omega (arith, size-copy_keys (keep gen_ai) base span)))
            ∙ is a base span ds;
      })
  | inr e ↦
      let same : (a : GoString) → lookup a base ≡ chosen gen_ai a base span =
        λ a. ground (arith, has_own-none gen_ai a span e) in
      rw e (record {
        is_map = db;
        bounded = small;
        sound = λ a v h. sym (same a) ∙ h;
        complete = λ fits a. same a;
      })
]

-- The keys that name a user or a session.
abbrev pub identity_keys : List GoString
identity_keys = lit "user.id" ∷ lit "enduser.id" ∷ lit "session.id" ∷ []

-- Whether a key of the span may stay: it has no column of its own, and is not an identity key of a
-- GenAI span.
abbrev pub kept : Bool → GoString → Bool
kept gen_ai a = not (elem a promoted_span_keys) && not (gen_ai && elem a identity_keys)

keep-kept :
    (gen_ai : Bool) (a : GoString)
    → (keep gen_ai a ≡ kept gen_ai a) × (is_promoted_key a ≡ elem a promoted_span_keys)
unfolding keep is_promoted_key
keep-kept true a = (ground arith, refl)
keep-kept false a = (ground arith, refl)

-- `m` are the attributes of a span with the attributes `span`, of a resource with the
-- attributes `res`.
pub record AreAttributes (gen_ai : Bool) (res span m : StringMap) : Type 0 where
  pub is_map : IsMap m
  pub bounded : size m ≤ max_span_attributes
  -- no key has a column of its own
  pub unpromoted : (a v : GoString) → lookup a m ≡ some v → elem a promoted_span_keys ≡ false
  -- a value is the span's, whose key is then kept, or the resource's
  pub sourced :
      (a v : GoString)
      → lookup a m ≡ some v
      → (kept gen_ai a ≡ true) × (lookup a span ≡ some v) ⊎ (lookup a res ≡ some v)
  -- the span's value goes first
  pub span_first :
      (a v w : GoString)
      → lookup a m ≡ some v
      → kept gen_ai a ≡ true
      → lookup a span ≡ some w
      → v ≡ w
  -- within the limit nothing that may be kept is lost
  pub complete :
      size res + size span ≤ max_span_attributes
      → (a : GoString) → elem a promoted_span_keys ≡ false
      → lookup a m ≡ (if kept gen_ai a then prefer (lookup a span) (lookup a res) else lookup a res)

-- what the resource's part of the attributes is
base_lem :
    (res : StringMap)
    → IsMap res
    → IsCapped
        (filter_keys (λ k. not (is_promoted_key k)) res)
        max_span_attributes
        (resource_base_attrs res)
        (cap_string_map (filter_keys (λ k. not (is_promoted_key k)) res) max_span_attributes).1
unfolding resource_base_attrs
base_lem res d =
    cap_string_map-IsCapped (filter_keys (λ k. not (is_promoted_key k)) res) max_span_attributes
      (filter_keys-IsMap (λ k. not (is_promoted_key k)) res d)

keep-unpromoted : (gen_ai : Bool) (a : GoString) → keep gen_ai a ≡ true → is_promoted_key a ≡ false
unfolding keep
keep-unpromoted gen_ai a h = ground arith

base_sound :
    (res : StringMap)
    → IsMap res
    → (a v : GoString) → lookup a (resource_base_attrs res) ≡ some v
    → (is_promoted_key a ≡ false) × (lookup a res ≡ some v)
base_sound res d a v h =
    let inside = (base_lem res d).kept a v h in
    let is = lookup-filter_keys (λ k. not (is_promoted_key k)) a res in (ground arith, ground arith)

pub merge_and_cap_attrs-AreAttributes :
    (gen_ai : Bool) (res span : StringMap)
    → IsMap res
    → IsMap span
    → AreAttributes gen_ai res span (merge_and_cap_attrs (resource_base_attrs res) span gen_ai)
merge_and_cap_attrs-AreAttributes gen_ai res span dr ds =
    let base = resource_base_attrs res in
    let b = base_lem res dr in
    let m = merge_and_cap_attrs-IsMerge gen_ai base span b.is_map ds (b.bounded (omega arith)) in
    let unpromoted = λ (k : GoString). not (is_promoted_key k) in
    record {
      is_map = m.is_map;
      bounded = m.bounded;
      unpromoted = λ a v h. ground (
        arith,
        m.sound a v h,
        base_sound res dr a v,
        keep-unpromoted gen_ai a,
        keep-kept gen_ai a,
      );
      sourced = λ a v h. ground (arith, m.sound a v h, base_sound res dr a v, keep-kept gen_ai a);
      span_first = λ a v w h k s. ground (arith, m.sound a v h, keep-kept gen_ai a);
      complete = λ fits a free.
          let few = size-filter_keys unpromoted res in
          let whole : lookup a base ≡ lookup a res =
            ap (lookup a) (b.small (omega arith))
            ∙ lookup-filter_keys unpromoted a res
            ∙ rw ((keep-kept gen_ai a).1 ∙ free) in
          m.complete (omega (arith, b.counted)) a ∙ rw (whole, (keep-kept gen_ai a).0);
    }
