-- ===== src/Core/Token.antt =====
-- `dedupToken` of internal/ingestion/core/insert_handler.go.
pub mod Order
use Prim.Native.Nat.{bit_xor, min, max}
use ingest.Prelude.{
  ℕ, ◌*◌, ◌%◌, ◌^◌, Option, none, some, List, [], ◌∷◌, ◌++◌, GoString, lit, nat_key, sort,
}
use ingest.Prelude.Digits.{decimal, hex_fixed}
use ingest.GoMap.{GoMap, lookup, insert, sorted_keys}
use ingest.Core.{KafkaRecord}

-- `hash/fnv`, `New64a`: one byte, and a string
unfoldable pub fnv1a_byte : ℕ → ℕ → ℕ
fnv1a_byte h b = bit_xor h b * 1099511628211 % 2 ^ 64

unfoldable pub fnv1a : ℕ → GoString → ℕ
unfolding fnv1a_byte
fnv1a h [] = h
fnv1a h (b ∷ bs) = fnv1a (fnv1a_byte h b) bs

abbrev pub fnv1a_offset : ℕ
fnv1a_offset = 14695981039346656037

pub record OffsetSpan : Type 0 where
  pub min_offset : ℕ
  pub max_offset : ℕ

-- one round of the loop over the records
unfoldable pub widen : GoMap ℕ OffsetSpan → KafkaRecord → GoMap ℕ OffsetSpan
widen by_partition rec = elim (lookup rec.partition by_partition) [
  | none ↦
      insert rec.partition (record { min_offset = rec.offset; max_offset = rec.offset })
        by_partition
  | some s ↦
      insert rec.partition
        (record {
          min_offset = min s.min_offset rec.offset;
          max_offset = max s.max_offset rec.offset;
        })
        by_partition
]

unfoldable pub spans_from : GoMap ℕ OffsetSpan → List KafkaRecord → GoMap ℕ OffsetSpan
unfolding widen
spans_from by_partition [] = by_partition
spans_from by_partition (rec ∷ recs) = spans_from (widen by_partition rec) recs

-- `"|%d:%d-%d"` for each partition
unfoldable pub render_spans : GoMap ℕ OffsetSpan → List ℕ → GoString
render_spans by_partition [] = []
render_spans by_partition (p ∷ ps) = elim (lookup p by_partition) [
  | none ↦ render_spans by_partition ps
  | some s ↦
      lit "|"
      ++ (decimal p
          ++ (lit ":"
              ++ (decimal s.min_offset
                  ++ (lit "-" ++ (decimal s.max_offset ++ render_spans by_partition ps)))))
]

unfoldable pub dedup_token : GoString → List KafkaRecord → GoString
unfolding spans_from render_spans sorted_keys
dedup_token signal recs =
    let by_partition = spans_from [] recs in
    hex_fixed 16
      (fnv1a fnv1a_offset (signal ++ render_spans by_partition (sorted_keys by_partition)))
