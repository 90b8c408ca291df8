-- ===== src/Infra/Otlp.antt =====
-- internal/infra/otlp: reading OTLP attributes (strings.go, protoconv.go, typed_attrs.go).
pub mod Truncate
pub mod Cap
pub mod Hex
pub mod Typed
use ingest.Prelude.{
  ℕ, zero, suc, ◌<◌, Bool, true, false, not, ◌&&◌, ◌||◌, Option, none, some, List, [], ◌∷◌, ltb,
  leb, nat_beq, if◌then◌else◌, length, take, drop, GoString, lit, text_key, ◌==◌,
}
use ingest.Prelude.Int.{ℤ}
use ingest.Prelude.Digits.{decimal_int, hex_encode}
use ingest.GoMap.{GoMap, keys, size, lookup, insert, delete, sorted_keys, at}
use ingest.GoFloat.{GoFloat}

abbrev pub StringMap : Type 0
StringMap = GoMap GoString GoString

-- `FirstNonEmpty(attrs, keys...)`
unfoldable pub first_non_empty : StringMap → List GoString → GoString
first_non_empty attrs [] = []
first_non_empty attrs (k ∷ ks) = elim (at k attrs) [
  | [] ↦ first_non_empty attrs ks
  | b ∷ bs ↦ b ∷ bs
]

-- `utf8.RuneStart(b)`: `b` is no continuation byte
unfoldable pub rune_start : ℕ → Bool
rune_start b = not (leb 0x80 b && ltb b 0xC0)

-- `s[i]`; `TruncateUTF8` reads in bounds only
unfoldable pub byte_at : GoString → ℕ → ℕ
byte_at [] i = 0
byte_at (b ∷ s) zero = b
byte_at (b ∷ s) (suc i) = byte_at s i

-- the loop `for cut > 0 && !utf8.RuneStart(s[cut]) { cut-- }`
unfoldable pub cut_at : GoString → ℕ → ℕ
cut_at s zero = zero
cut_at s (suc cut) = if rune_start (byte_at s (suc cut)) then suc cut else cut_at s cut

unfoldable pub truncate_utf8 : GoString → ℕ → GoString
truncate_utf8 s max_bytes = if leb (length s) max_bytes then s else take (cut_at s max_bytes) s

-- `for _, k := range ks { delete(m, k) }`
unfoldable pub delete_all : List GoString → StringMap → StringMap
delete_all [] m = m
delete_all (k ∷ ks) m = delete_all ks (delete k m)

-- `CapStringMap(strMap, limit)`: the map after the call, and the result
unfoldable pub cap_string_map : StringMap → ℕ → StringMap × ℕ
unfolding delete_all
cap_string_map str_map limit =
    if leb limit 0 || leb (size str_map) limit
    then (str_map, 0)
    else let excess = drop limit (sorted_keys str_map) in (delete_all excess str_map, length excess)

-- `BytesToHex(b)`
unfoldable pub bytes_to_hex_loop : GoString → GoString → GoString
bytes_to_hex_loop b [] = []
bytes_to_hex_loop b (c ∷ cs) =
    let rest = bytes_to_hex_loop b cs in if nat_beq c 0 then rest else hex_encode b

unfoldable pub bytes_to_hex : GoString → GoString
unfolding bytes_to_hex_loop
bytes_to_hex b = bytes_to_hex_loop b b

-- `commonpb.AnyValue` with its oneof; `unset` is a message whose oneof is nil. A nil `*AnyValue`
-- is `none` where one is allowed.
mutual
  pub data AnyValue (F : Type 0) : Type 0 where
    unset : AnyValue F
    string_value : GoString → AnyValue F
    int_value : ℤ → AnyValue F
    double_value : F → AnyValue F
    bool_value : Bool → AnyValue F
    bytes_value : GoString → AnyValue F
    kvlist_value : Fields F → AnyValue F
    array_value : Values F → AnyValue F

  pub data Fields (F : Type 0) : Type 0 where
    end : Fields F
    -- a key and its value, which may be nil
    field : GoString → AnyValue F → Fields F → Fields F
    field_nil : GoString → Fields F → Fields F

  pub data Values (F : Type 0) : Type 0 where
    nil : Values F
    cons : AnyValue F → Values F → Values F
    cons_nil : Values F → Values F

-- the `any` values that `anyValueToGo` builds for `json.Marshal`
mutual
  pub data GoAny (F : Type 0) : Type 0 where
    nil_any : GoAny F
    string_any : GoString → GoAny F
    int_any : ℤ → GoAny F
    float_any : F → GoAny F
    bool_any : Bool → GoAny F
    map_any : AnyEntries F → GoAny F
    slice_any : AnyItems F → GoAny F

  -- entries of a `map[string]any`, a key once
  pub data AnyEntries (F : Type 0) : Type 0 where
    no_entry : AnyEntries F
    entry : GoString → GoAny F → AnyEntries F → AnyEntries F

  pub data AnyItems (F : Type 0) : Type 0 where
    no_item : AnyItems F
    item : GoAny F → AnyItems F → AnyItems F

-- `m[k] = v` on a `map[string]any`
unfoldable pub put_entry : {F : Type 0} → GoString → GoAny F → AnyEntries F → AnyEntries F
put_entry k v no_entry = entry k v no_entry
put_entry k v (entry j w m) = if j == k then entry j v m else entry j w (put_entry k v m)

unfoldable mutual
  pub any_value_to_go : {F : Type 0} → AnyValue F → GoAny F
  any_value_to_go unset = nil_any
  any_value_to_go (string_value s) = string_any s
  any_value_to_go (int_value n) = int_any n
  any_value_to_go (double_value x) = float_any x
  any_value_to_go (bool_value b) = bool_any b
  any_value_to_go (bytes_value b) = string_any (hex_encode b)
  any_value_to_go (kvlist_value kvs) = map_any (fields_to_go kvs no_entry)
  any_value_to_go (array_value vs) = slice_any (values_to_go vs)

  -- the loop over the key-value list, into the map built so far
  pub fields_to_go : {F : Type 0} → Fields F → AnyEntries F → AnyEntries F
  fields_to_go end m = m
  fields_to_go (field k v kvs) m = fields_to_go kvs (put_entry k (any_value_to_go v) m)
  fields_to_go (field_nil k kvs) m = fields_to_go kvs (put_entry k nil_any m)

  pub values_to_go : {F : Type 0} → Values F → AnyItems F
  values_to_go nil = no_item
  values_to_go (cons v vs) = item (any_value_to_go v) (values_to_go vs)
  values_to_go (cons_nil vs) = item nil_any (values_to_go vs)

-- `commonpb.KeyValue`; the value may be nil
pub record KeyValue (F : Type 0) : Type 0 where
  pub key : GoString
  pub value : Option (AnyValue F)

-- `json` stands for `json.Marshal`; `none` is an error.
module _ (G : GoFloat) (json : GoAny (GoFloat.Float G) → Option GoString) where
  open G use {Float}

  -- `pcommonValueToString`
  unfoldable pub value_to_string : AnyValue Float → GoString
  value_to_string (string_value s) = s
  value_to_string (int_value n) = decimal_int n
  value_to_string (double_value x) = G.format x
  value_to_string (bool_value true) = lit "true"
  value_to_string (bool_value false) = lit "false"
  value_to_string (bytes_value b) = hex_encode b
  value_to_string v = elim (json (any_value_to_go v)) [ none ↦ [] | some b ↦ b ]

  -- `AnyValueString`
  unfoldable pub any_value_string : Option (AnyValue Float) → GoString
  unfolding value_to_string
  any_value_string none = []
  any_value_string (some v) = value_to_string v

  -- the loop of `AttrsToMap`
  unfoldable pub attrs_to_map_loop : StringMap → List (KeyValue Float) → StringMap
  attrs_to_map_loop m [] = m
  attrs_to_map_loop m (kv ∷ kvs) =
      attrs_to_map_loop (insert kv.key (any_value_string kv.value) m) kvs

  unfoldable pub attrs_to_map : List (KeyValue Float) → StringMap
  unfolding attrs_to_map_loop
  attrs_to_map kvs = attrs_to_map_loop [] kvs

-- the three maps of `TypedAttrs`
pub record TypedMaps (F : Type 0) : Type 0 where
  pub str_map : StringMap
  pub num_map : GoMap GoString F
  pub bool_map : GoMap GoString Bool

module _ (G : GoFloat) where
  open G use {Float}

  -- one round of the loop of `TypedAttrs`
  unfoldable pub typed_attr : TypedMaps Float → KeyValue Float → TypedMaps Float
  typed_attr t kv = elim kv.value [
    | none ↦ t
    | some v ↦ elim v [
      | string_value s ↦ record t { str_map = insert kv.key s t.str_map }
      | int_value n ↦ record t { num_map = insert kv.key (G.of_int n) t.num_map }
      | double_value x ↦ record t { num_map = insert kv.key x t.num_map }
      | bool_value b ↦ record t { bool_map = insert kv.key b t.bool_map }
      | bytes_value b ↦ record t { str_map = insert kv.key b t.str_map }
      | _ ↦ t
    ]
  ]

  unfoldable pub typed_attrs_loop : TypedMaps Float → List (KeyValue Float) → TypedMaps Float
  unfolding typed_attr
  typed_attrs_loop t [] = t
  typed_attrs_loop t (kv ∷ kvs) = typed_attrs_loop (typed_attr t kv) kvs

  abbrev pub no_attrs : TypedMaps Float
  no_attrs = record { str_map = []; num_map = []; bool_map = [] }

  -- `TypedAttrs(kvs, maxStringKeys)`: the maps, and how many string keys were dropped
  unfoldable pub typed_attrs : List (KeyValue Float) → ℕ → TypedMaps Float × ℕ
  unfolding typed_attrs_loop cap_string_map
  typed_attrs kvs max_string_keys =
      let t = typed_attrs_loop no_attrs kvs in
      if ltb 0 max_string_keys && ltb max_string_keys (size t.str_map)
      then (let (capped, dropped) = cap_string_map t.str_map max_string_keys in
          (record t { str_map = capped }, dropped))
      else (t, 0)
