-- ===== src/Infra/Otlp/Typed.antt =====
-- The maps that the loops over OTLP attributes build.
use ingest.Prelude.{GoString, List, Option, [], nat_key, text_key, ◌∷◌}
use ingest.GoMap.{IsMap, insert}
use ingest.GoMap.Laws.{insert-IsMap}
use ingest.GoFloat.{GoFloat}
use ingest.Infra.Otlp.{
  GoAny, KeyValue, StringMap, any_value_string, attrs_to_map, attrs_to_map_loop,
}

module _ (G : GoFloat) (json : GoAny (GoFloat.Float G) → Option GoString) where
  open G use {Float}

  attrs_to_map_loop-IsMap :
      (m : StringMap) (kvs : List (KeyValue Float))
      → IsMap m
      → IsMap (attrs_to_map_loop G json m kvs)
  unfolding attrs_to_map_loop
  attrs_to_map_loop-IsMap m [] d = d
  attrs_to_map_loop-IsMap m (kv ∷ kvs) d =
      attrs_to_map_loop-IsMap (insert kv.key (any_value_string G json kv.value) m) kvs
        (insert-IsMap kv.key _ m d)

  pub attrs_to_map-IsMap : (kvs : List (KeyValue Float)) → IsMap (attrs_to_map G json kvs)
  unfolding attrs_to_map
  attrs_to_map-IsMap kvs = attrs_to_map_loop-IsMap [] kvs tt
