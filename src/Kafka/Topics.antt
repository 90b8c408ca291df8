-- ===== src/Kafka/Topics.antt =====
-- topics.go: the topics that exist at the start, and their partitions.
use Prim.Native.Nat.{max}
use ingest.Prelude.{
  Bool-cases, GoString, List, Option, Option-cases, [], arith, if◌then◌else◌, inl, inr, leb, ltb,
  nat_key, none, refl, some, text_key, ℕ, ◌*◌, ◌++◌, ◌<◌, ◌||◌, ◌∙◌, ◌∷◌, ◌≡◌, ◌≢◌, ◌⊎◌,
}
use ingest.Prelude.Int.{pos_part, ℤ}

pub record TopicSpec : Type 0 where
  pub name : GoString
  pub partitions : ℤ
  pub replicas : ℤ
  pub retention_hours : ℤ

pub data PartitionAction : Type 0 where
  partition_noop : PartitionAction
  partition_grow : PartitionAction
  partition_shrink_skip : PartitionAction

-- `decidePartitionAction`
unfoldable pub decide_partition_action : ℕ → ℕ → PartitionAction
decide_partition_action current target =
    if ltb current target
    then partition_grow
    else if ltb target current
    then partition_shrink_skip
    else partition_noop

-- What the broker answers to the administration client: the number of partitions that the
-- metadata gives, or an error; how a creation ends; an error of an update, or none. The numbers
-- are those of `int32` values that are not negative.
pub data Creation : Type 0 where
  created : Creation
  already_exists : Creation
  creation_failed : GoString → Creation

pub record Admin (W : Type 0) : Type 0 where
  pub list_topic : GoString → W → Option ℕ
  pub create_topic : GoString → ℕ → ℕ → Option ℕ → W → W × Creation
  pub update_partitions : GoString → ℕ → W → W × Option GoString

pub data Partitions : Type 0 where
  partitions : ℕ → Partitions
  partitions_failed : Partitions

pub data Ensured : Type 0 where
  ready : Ensured
  not_ready : GoString → Ensured

module _ {W : Type 0} (adm : Admin W) where
  -- `EnsureTopicPartitions`
  unfoldable pub ensure_topic_partitions : GoString → ℕ → W → W × Partitions
  unfolding decide_partition_action
  ensure_topic_partitions topic target w = elim (adm.list_topic topic w) [
    | none ↦ (w, partitions_failed)
    | some current ↦ elim (decide_partition_action current target) [
      | partition_noop ↦ (w, partitions current)
      | partition_shrink_skip ↦ (w, partitions current)
      | partition_grow ↦
          let (w', err) = adm.update_partitions topic target w in
          elim err [ none ↦ (w', partitions target) | some e ↦ (w', partitions_failed) ]
    ]
  ]

  -- the `retention.ms` of a spec
  unfoldable pub retention_ms : ℤ → Option ℕ
  retention_ms hours = if leb (pos_part hours) 0 then none else some (pos_part hours * 3600 * 1000)

  -- one round of the loop of `EnsureTopics`; the text of an error names the topic
  unfoldable pub ensure_topic : TopicSpec → W → W × Ensured
  unfolding ensure_topic_partitions retention_ms
  ensure_topic s w =
      let target = pos_part s.partitions in
      let replicas = pos_part s.replicas in
      elim s.name [
        | [] ↦ (w, not_ready s.name)
        | c ∷ cs ↦
            if leb target 0 || leb replicas 0
            then (w, not_ready s.name)
            else (let (w', created_as) =
                  adm.create_topic s.name target replicas (retention_ms s.retention_hours) w in
                elim created_as [
                  | created ↦ (w', ready)
                  | already_exists ↦
                      let (w'', actual) = ensure_topic_partitions s.name target w' in
                      elim actual [
                        | partitions n ↦ (w'', ready)
                        | partitions_failed ↦ (w'', not_ready s.name)
                      ]
                  | creation_failed e ↦ (w', not_ready s.name)
                ])
      ]

  -- `EnsureTopics`, once there is a client
  unfoldable pub ensure_topics : List TopicSpec → W → W × Ensured
  unfolding ensure_topic
  ensure_topics [] w = (w, ready)
  ensure_topics (s ∷ specs) w =
      let (w', r) = ensure_topic s w in
      let (w'', rest) = ensure_topics specs w' in
      elim r [ not_ready e ↦ (w', not_ready e) | ready ↦ (w'', rest) ]

-- `IngestTopic` and `DLQTopic`
unfoldable pub ingest_topic : GoString → GoString → GoString
ingest_topic prefix signal = prefix ++ 46 ∷ signal

unfoldable pub dlq_topic : GoString → GoString → GoString
dlq_topic dlq_prefix signal = dlq_prefix ++ 46 ∷ signal

-- What the documentation of Kafka promises of the administration: a topic has the partitions that
-- it was created with or was grown to; an update that reports no error has set the number; and one
-- that reports an error, a timeout for one, has set it or left it as it was.
module _ {W : Type 0} (adm : Admin W) where
  pub record IsBroker : Type 0 where
    pub update :
        (topic : GoString) (n : ℕ) (w : W)
        → ((adm.update_partitions topic n w).1 ≢ none)
          ⊎ (adm.list_topic topic (adm.update_partitions topic n w).0 ≡ some n)
    pub update_keeps :
        (topic : GoString) (n : ℕ) (w : W)
        → (adm.list_topic topic (adm.update_partitions topic n w).0 ≡ adm.list_topic topic w)
          ⊎ (adm.list_topic topic (adm.update_partitions topic n w).0 ≡ some n)

  -- `EnsureTopicPartitions` never shrinks a topic, for a broker that keeps its word on updates: on
  -- success the topic has the number of partitions that is reported, which is the greater one of
  -- what it had and what is wanted; on failure it has what it had, or, where it had fewer than
  -- what is wanted, perhaps what is wanted.
  pub ensure_topic_partitions_lem :
      (topic : GoString) (target : ℕ) (w : W)
      → IsBroker
      → let (w', r) = ensure_topic_partitions adm topic target w in
        ((n : ℕ) × (c : ℕ) × (r ≡ partitions n)
          × (adm.list_topic topic w ≡ some c)
          × (n ≡ max c target)
          × (adm.list_topic topic w' ≡ some n))
        ⊎ (r ≡ partitions_failed)
          × ((adm.list_topic topic w' ≡ adm.list_topic topic w)
              ⊎ ((c : ℕ) × (adm.list_topic topic w ≡ some c)
                  × (c < target)
                  × (adm.list_topic topic w' ≡ some target)))
  unfolding ensure_topic_partitions decide_partition_action
  ensure_topic_partitions_lem topic target w b = elim (Option-cases (adm.list_topic topic w)) [
    | inl e ↦ rw (ensure_topic_partitions, e) (inr (refl, inl e))
    | inr (c, e) ↦ elim (Bool-cases (ltb c target)) [
      | inl less ↦ elim (Option-cases (adm.update_partitions topic target w).1) [
        | inl ok ↦
            rw (ensure_topic_partitions, e, decide_partition_action, less, ok)
              (inl (
                target,
                c,
                refl,
                refl,
                ground arith,
                elim (b.update topic target w) [ inl bad ↦ absurd (bad ok) | inr now ↦ now ],
              ))
        | inr (x, bad) ↦
            rw (ensure_topic_partitions, e, decide_partition_action, less, bad)
              (inr (
                refl,
                elim (b.update_keeps topic target w) [
                  | inl kept ↦ inl (kept ∙ e)
                  | inr grown ↦ inr (c, refl, ground arith, grown)
                ],
              ))
      ]
      | inr enough ↦ elim (Bool-cases (ltb target c)) [
        | inl more ↦
            rw (ensure_topic_partitions, e, decide_partition_action, enough, more)
              (inl (c, c, refl, refl, ground arith, e))
        | inr same ↦
            rw (ensure_topic_partitions, e, decide_partition_action, enough, same)
              (inl (c, c, refl, refl, ground arith, e))
      ]
    ]
  ]
