-- ===== src/Kafka/Lag/Law.antt =====
-- The lag that is reported for each partition.
use ingest.Prelude.{
  Bool-cases, GoString, List, Option, Option-cases, [], ap, arith, elem, if◌then◌else◌, inl, inr,
  nat_beq, nat_beq_iff, nat_key, none, refl, some, text_beq_iff, text_key, true, ℕ, ◌-◌, ◌<◌, ◌^◌,
  ◌∙◌, ◌∷◌, ◌≡◌,
}
use ingest.GoMap.Laws.{lookup-insert, lookup-insert_self}
use ingest.GoMap.{GoMap, lookup}
use ingest.Prelude.Int.{negsuc, pos, wrap_int, ℤ, ◌-ℤ◌}
use ingest.Kafka.Lag.{
  PartKey, committed_offset, diff_lag, diff_loop, part_key, partition_lag, put_lag,
}

-- The offsets that Kafka gives: -1, or one that is not negative and fits an `int64`.
abbrev pub IsOffset : ℤ → Type 0
IsOffset (pos n) = n < 2 ^ 63
IsOffset (negsuc n) = n ≡ 0

-- How many records behind a group is: the end of the log less what it has committed, which is
-- nothing where no offset is committed; never less than 0.
unfoldable pub behind : ℤ → ℤ → ℕ
behind (pos end_off) (pos comm_off) = end_off - comm_off
behind (pos end_off) (negsuc _) = end_off
behind (negsuc _) _ = 0

partition_lag-behind :
    (end_off comm_off : ℤ)
    → IsOffset end_off
    → IsOffset comm_off
    → partition_lag end_off comm_off ≡ pos (behind end_off comm_off)
unfolding partition_lag behind wrap_int ◌-ℤ◌
partition_lag-behind (pos e) (pos c) h k = ground arith
partition_lag-behind (pos e) (negsuc c) h k = refl
partition_lag-behind (negsuc e) (pos c) h k = ground arith
partition_lag-behind (negsuc e) (negsuc c) h k = refl

-- how many records behind a group is that has committed an offset, or none at all
abbrev pub due : Option ℤ → ℤ → ℕ
due none (pos end_off) = end_off
due none (negsuc _) = 0
due (some comm_off) end_off = behind end_off comm_off

behind-due :
    (p : ℕ) (committed : GoMap ℕ ℤ) (end_off : ℤ)
    → behind end_off (committed_offset p committed) ≡ due (lookup p committed) end_off
unfolding committed_offset behind
behind-due p committed (pos e) = elim (Option-cases (lookup p committed)) [
  | inl h ↦ rw (h, committed_offset) (ground arith)
  | inr (o, h) ↦ rw (h, committed_offset)
]
behind-due p committed (negsuc e) = elim (Option-cases (lookup p committed)) [
  | inl h ↦ rw (h, committed_offset)
  | inr (o, h) ↦ rw (h, committed_offset)
]

abbrev pub AreOffsets : GoMap ℕ ℤ → Type 0
AreOffsets m = (p : ℕ) (o : ℤ) → lookup p m ≡ some o → IsOffset o

committed_offset-IsOffset :
    (p : ℕ) (committed : GoMap ℕ ℤ) → AreOffsets committed → IsOffset (committed_offset p committed)
unfolding committed_offset
committed_offset-IsOffset p committed h = elim (Option-cases (lookup p committed)) [
  | inl e ↦ rw (e, committed_offset) (omega arith)
  | inr (o, e) ↦ rw (e, committed_offset) (h p o e)
]

module _ (topic : GoString) (committed end : GoMap ℕ ℤ) where
  -- what the specification has for a partition: its lag, or what stood there before
  abbrev pub lag_or : ℕ → Option ℤ → Option ℤ
  lag_or p before = elim (lookup p end) [
    | none ↦ before
    | some e ↦ some (pos (due (lookup p committed) e))
  ]

  lookup-put_lag :
      (q p : ℕ) (out : GoMap PartKey ℤ)
      → AreOffsets committed
      → AreOffsets end
      → lookup (topic, p) (put_lag topic committed end q out)
        ≡ (if nat_beq q p then lag_or p (lookup (topic, p) out) else lookup (topic, p) out)
  unfolding put_lag
  lookup-put_lag q p out hc he = elim (Bool-cases (nat_beq q p)) [
    | inl same ↦
        let e = (nat_beq_iff q p).0 same in
        rw (e, same_key)
          (elim (Option-cases (lookup p end)) [
            | inl absent ↦ rw (absent, put_lag, lag_or)
            | inr (o, present) ↦
                rw (present, put_lag, lag_or)
                  (lookup-insert_self (topic, p) (partition_lag o (committed_offset p committed))
                      out
                    ∙ ap some (
                        partition_lag-behind o (committed_offset p committed) (he p o present)
                          (committed_offset-IsOffset p committed hc)
                        ∙ ap pos (behind-due p committed o)))
          ])
    | inr other ↦ rw other (elim (Option-cases (lookup q end)) [
      | inl absent ↦ rw (absent, put_lag)
      | inr (o, present) ↦
          rw (present, put_lag)
            (ground (
              arith,
              lookup-insert (topic, q) (topic, p) (partition_lag o (committed_offset q committed))
                  out,
              text_beq_iff topic topic,
            ))
    ])
  ]
    where
      same_key : nat_beq p p ≡ true
      same_key = (nat_beq_iff p p).1 refl

  lookup-diff_loop :
      (ps : List ℕ) (p : ℕ) (out : GoMap PartKey ℤ)
      → AreOffsets committed
      → AreOffsets end
      → lookup (topic, p) (diff_loop topic committed end ps out)
        ≡ (if elem p ps then lag_or p (lookup (topic, p) out) else lookup (topic, p) out)
  unfolding diff_loop
  lookup-diff_loop [] p out hc he = refl
  lookup-diff_loop (q ∷ ps) p out hc he =
      lookup-diff_loop ps p (put_lag topic committed end q out) hc he
      ∙ ground (arith, lookup-put_lag q p out hc he)

  -- What is reported of a topic, for offsets as Kafka gives them: each of the partitions that has an
  -- end offset is reported with the number of records that the group is behind, which is the end
  -- less the committed offset, the whole log where nothing is committed, and never less than 0. No
  -- other partition is reported.
  pub lookup-diff_lag :
      (ps : List ℕ) (p : ℕ)
      → AreOffsets committed
      → AreOffsets end
      → lookup (topic, p) (diff_lag topic ps committed end)
        ≡ (if elem p ps then lag_or p none else none)
  unfolding diff_lag lookup
  lookup-diff_lag ps p hc he = lookup-diff_loop ps p [] hc he
