-- ===== src/Kafka/Consumer/Live.antt =====
-- The committer of the Kafka consumer and the batches that it waits for.
use ingest.Prelude.{
  List-cases, [], ap, arith, elem, elem-append, if◌then◌else◌, inl, inr, length, nat_beq_iff,
  nat_key, some, suc, sym, text_key, true, zero, ℕ, ◌++◌, ◌+◌, ◌<◌, ◌∙◌, ◌∷◌, ◌≡◌,
}
use ingest.GoMap.{keys}
use ingest.GoMap.Laws.{lookup_present}
use ingest.Kafka.Consumer.{Pipeline, Reach, commit}
use ingest.Kafka.Consumer.Ordered.{Reach-IsOrdered, elem-snoc, upto}

upto-elem : (n a : ℕ) → elem a (upto n) ≡ true → a < n
upto-elem zero a h = cc
upto-elem (suc n) a h = ground (arith, elem-snoc a n (upto n), upto-elem n a, nat_beq_iff n a)

-- When the workers have nothing left to do, the committer can commit the oldest batch that waits
-- for it, whether its handler failed or not: no batch is left over.
pub Reach-commits :
    {workers : ℕ} (p : Pipeline)
    → Reach workers p
    → p.worker_chan ≡ []
    → p.busy ≡ []
    → 0 < length p.committer_chan
    → (q : Pipeline) × (commit p ≡ some q)
      × (suc (length q.committer_chan) ≡ length p.committer_chan)
unfolding commit
Reach-commits p r quiet free waiting =
    let i = Reach-IsOrdered p r in
    elim (List-cases p.committer_chan) [
      | inl e ↦ absurd (ground (arith, ap length e))
      | inr (j, js, e) ↦
          let here : elem j (p.committed ++ p.committer_chan) ≡ true =
            elem-append j p.committed p.committer_chan
            ∙ ground (arith, ap (elem j) e, nat_beq_iff j j) in
          let number : j < i.seen = upto-elem i.seen j (sym (ap (elem j) i.in_order) ∙ here) in
          let known : elem j (keys p.done) ≡ true =
            ground (arith, i.tracked j, ap (elem j) quiet, ap (elem j) free, i.at_most) in
          let (ok, found) = lookup_present j p.done known in
          let q : Pipeline = record p {
            committer_chan = js;
            committed = p.committed ++ j ∷ [];
            batches_dropped = if ok then p.batches_dropped else p.batches_dropped + 1;
          } in
          (q, rw (commit, e, found), sym (ap length e))
    ]
