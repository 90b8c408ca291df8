-- ===== src/Kafka/Lag.antt =====
-- observability.go: the lag of a consumer group.
pub mod Law
use ingest.Prelude.{
  Bool, GoString, Key, List, Option, [], false, if◌then◌else◌, nat_key, none, some, text_key, true,
  ℕ, ◌==◌, ◌∷◌,
}
use ingest.Prelude.Int.{negsuc, pos, wrap_int, ℤ, ◌-ℤ◌}
use ingest.Prelude.Pairs.{pair_key}
use ingest.Prelude.Digits.{decimal}
use ingest.GoMap.{GoMap, insert, lookup}

-- `partKey`. Partitions are `int32` values that are not negative.
abbrev pub PartKey : Type 0
PartKey = GoString × ℕ

instance abbrev pub part_key : Key PartKey
part_key = pair_key text_key nat_key

abbrev pub is_negative : ℤ → Bool
is_negative (pos _) = false
is_negative (negsuc _) = true

-- `committed[p]`, where a missing entry is 0
unfoldable pub committed_offset : ℕ → GoMap ℕ ℤ → ℤ
committed_offset p committed = elim (lookup p committed) [ none ↦ pos 0 | some o ↦ o ]

-- the lag of one partition in `diffLag`; the difference of two `int64` values wraps around
unfoldable pub partition_lag : ℤ → ℤ → ℤ
unfolding wrap_int
partition_lag end_off comm_off =
    let lag = if is_negative comm_off then end_off else wrap_int 64 (end_off -ℤ comm_off) in
    if is_negative lag then pos 0 else lag

-- one round of the loop of `diffLag`, into the map built so far
unfoldable pub put_lag : GoString → GoMap ℕ ℤ → GoMap ℕ ℤ → ℕ → GoMap PartKey ℤ → GoMap PartKey ℤ
put_lag topic committed end p out = elim (lookup p end) [
  | none ↦ out
  | some end_off ↦ insert (topic, p) (partition_lag end_off (committed_offset p committed)) out
]

unfoldable pub diff_loop :
    GoString → GoMap ℕ ℤ → GoMap ℕ ℤ → List ℕ → GoMap PartKey ℤ → GoMap PartKey ℤ
unfolding put_lag
diff_loop topic committed end [] out = out
diff_loop topic committed end (p ∷ ps) out =
    diff_loop topic committed end ps (put_lag topic committed end p out)

-- `diffLag`
unfoldable pub diff_lag : GoString → List ℕ → GoMap ℕ ℤ → GoMap ℕ ℤ → GoMap PartKey ℤ
unfolding diff_loop partition_lag committed_offset
diff_lag topic partitions committed end = diff_loop topic committed end partitions []

-- The answers of the broker, as far as they are read; `none` is an error. Metadata names topics,
-- perhaps not, with their partitions; the two offset requests give offsets by topic and partition.
abbrev pub Offsets : Type 0
Offsets = List (GoString × List (ℕ × ℤ))

pub record LagClient : Type 0 where
  pub metadata : GoString → Option (List (Option GoString × List ℕ))
  pub offset_fetch : GoString → GoString → List ℕ → Option Offsets
  pub list_offsets : GoString → List ℕ → Option Offsets

-- the loop of `fetchPartitions` over the topics of the answer
unfoldable pub partitions_of : GoString → List (Option GoString × List ℕ) → List ℕ
partitions_of topic [] = []
partitions_of topic ((none, _) ∷ rest) = partitions_of topic rest
partitions_of topic ((some t, ps) ∷ rest) = if t == topic then ps else partitions_of topic rest

-- `out[pr.Partition] = pr.Offset` for each partition
unfoldable pub put_offsets : List (ℕ × ℤ) → GoMap ℕ ℤ → GoMap ℕ ℤ
put_offsets [] out = out
put_offsets ((p, o) ∷ rest) out = put_offsets rest (insert p o out)

-- the loop of `fetchCommittedOffsets` and of `fetchEndOffsets` over the topics of the answer
unfoldable pub offsets_of : GoString → Offsets → GoMap ℕ ℤ → GoMap ℕ ℤ
unfolding put_offsets
offsets_of topic [] out = out
offsets_of topic ((t, ps) ∷ rest) out =
    offsets_of topic rest (if t == topic then put_offsets ps out else out)

pub data GroupLag : Type 0 where
  group_lag : GoMap PartKey ℤ → GroupLag
  metadata_failed : GroupLag
  offset_fetch_failed : GroupLag
  list_offsets_failed : GroupLag

module _ (client : LagClient) where
  unfoldable pub fetch_partitions : GoString → Option (List ℕ)
  unfolding partitions_of
  fetch_partitions topic = elim (client.metadata topic) [
    | none ↦ none
    | some topics ↦ some (partitions_of topic topics)
  ]

  unfoldable pub fetch_committed_offsets : GoString → GoString → List ℕ → Option (GoMap ℕ ℤ)
  unfolding offsets_of
  fetch_committed_offsets group topic partitions =
      elim (client.offset_fetch group topic partitions) [
        | none ↦ none
        | some offsets ↦ some (offsets_of topic offsets [])
      ]

  unfoldable pub fetch_end_offsets : GoString → List ℕ → Option (GoMap ℕ ℤ)
  unfolding offsets_of
  fetch_end_offsets topic partitions = elim (client.list_offsets topic partitions) [
    | none ↦ none
    | some offsets ↦ some (offsets_of topic offsets [])
  ]

  -- `fetchGroupLag`
  unfoldable pub fetch_group_lag : GoString → GoString → GroupLag
  unfolding fetch_partitions fetch_committed_offsets fetch_end_offsets diff_lag
  fetch_group_lag group topic = elim (fetch_partitions topic) [
    | none ↦ metadata_failed
    | some [] ↦ group_lag []
    | some (p ∷ ps) ↦ elim (fetch_committed_offsets group topic (p ∷ ps)) [
      | none ↦ offset_fetch_failed
      | some committed ↦ elim (fetch_end_offsets topic (p ∷ ps)) [
        | none ↦ list_offsets_failed
        | some end ↦ group_lag (diff_lag topic (p ∷ ps) committed end)
      ]
    ]
  ]

  -- `LagPoller.sample`: the gauges by topic, partition and group, afterwards
  unfoldable pub set_gauges :
      GoString
      → GoMap PartKey ℤ
      → GoMap (GoString × (GoString × GoString)) ℤ
      → GoMap (GoString × (GoString × GoString)) ℤ
  unfolding decimal
  set_gauges group [] gauges = gauges
  set_gauges group (((topic, p), delta) ∷ lag) gauges = set_gauges group lag (
      insert ⦃k = pair_key text_key (pair_key text_key text_key)⦄ (topic, (decimal p, group)) delta
        gauges)

  unfoldable pub sample :
      GoString
      → GoString
      → GoMap (GoString × (GoString × GoString)) ℤ
      → GoMap (GoString × (GoString × GoString)) ℤ
  unfolding fetch_group_lag set_gauges
  sample group topic gauges = elim (fetch_group_lag group topic) [
    | group_lag lag ↦ set_gauges group lag gauges
    | metadata_failed ↦ gauges
    | offset_fetch_failed ↦ gauges
    | list_offsets_failed ↦ gauges
  ]
