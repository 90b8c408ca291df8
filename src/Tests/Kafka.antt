-- ===== src/Tests/Kafka.antt =====
-- internal/infra/kafka on concrete inputs.
use ingest.Prelude.{
  Bool-cases, List, [], arith, false, if◌then◌else◌, inl, inr, length, lit, ltb, nat_key, none,
  refl, some, suc, text_key, true, ℕ, ◌<◌, ◌∷◌, ◌≡◌, ◌⊎◌,
}
use ingest.GoMap.{lookup}
use ingest.Kafka.Topics.{
  Admin, IsBroker, Partitions, already_exists, ensure_topic_partitions, ensure_topic_partitions_lem,
  partitions, partitions_failed,
}
use ingest.Kafka.Consumer.{
  Move, Pipeline, Reach, commit, commits, fetch, fetches, finish_job, finishes, hand, hands, move,
  new_pipeline, next, remove_job, start, take_job, takes,
}
use ingest.Kafka.Consumer.Live.{Reach-commits}
use ingest.Kafka.Consumer.Ordered.{IsOrdered, Reach-IsOrdered}
use Prim.Native.Nat.{max}

-- Two batches with two workers: the second handler ends first.
abbrev after : List Move → Pipeline → Pipeline
after [] p = p
after (m ∷ ms) p = elim (move m p) [ none ↦ p | some q ↦ after ms q ]

abbrev one_batch : Pipeline
one_batch = record {
  workers = 1;
  fetched = 1;
  running = true;
  handing = none;
  worker_chan = [];
  committer_chan = 0 ∷ [];
  idle = 1;
  busy = [];
  done = (0, false) ∷ [];
  committed = [];
  batches_dropped = 0;
}

one_batch-Reach : Reach 1 one_batch
unfolding move fetch hand take_job finish_job new_pipeline remove_job
one_batch-Reach =
    next (next (next (next start fetches _ refl) hands _ refl) takes _ refl) (finishes 0 false)
      one_batch refl

Reach-IsOrdered_example : IsOrdered one_batch
Reach-IsOrdered_example = Reach-IsOrdered one_batch one_batch-Reach

Reach-commits_example :
    (q : Pipeline) × (commit one_batch ≡ some q)
    × (suc (length q.committer_chan) ≡ length one_batch.committer_chan)
Reach-commits_example = Reach-commits one_batch one_batch-Reach refl refl (omega arith)

later_first :
    (after
      (fetches
        ∷ hands
        ∷ takes
        ∷ fetches
        ∷ hands
        ∷ takes
        ∷ finishes 1 true
        ∷ finishes 0 true
        ∷ commits
        ∷ commits
        ∷ [])
      (new_pipeline 2)).committed
    ≡ 0 ∷ 1 ∷ []
unfolding move fetch hand take_job finish_job commit new_pipeline remove_job lookup
later_first = refl

-- A broker whose one topic has as many partitions as the state says. It does not grow a topic to
-- more than ten partitions, and when it grows one to ten it times out.
abbrev admin : Admin ℕ
admin = record {
  list_topic = λ topic n. some n;
  create_topic = λ topic n r ms w. (w, already_exists);
  update_partitions = λ topic n w.
      if ltb 10 n
      then (w, some (lit "refused"))
      else if ltb n 10
      then (n, none)
      else (n, some (lit "timeout"));
}

admin-IsBroker : IsBroker admin
admin-IsBroker = record {
  update = λ t n w. elim (Bool-cases (ltb 10 n)) [
    | inl more ↦ rw more (inl (λ e. cc))
    | inr few ↦ elim (Bool-cases (ltb n 10)) [
      | inl less ↦ rw (few, less) (inr refl)
      | inr ten ↦ rw (few, ten) (inl (λ e. cc))
    ]
  ];
  update_keeps = λ t n w. elim (Bool-cases (ltb 10 n)) [
    | inl more ↦ rw more (inl refl)
    | inr few ↦ elim (Bool-cases (ltb n 10)) [
      | inl less ↦ rw (few, less) (inr refl)
      | inr ten ↦ rw (few, ten) (inr refl)
    ]
  ];
}

abbrev Growth : ℕ → ℕ → ℕ × Partitions → Type 0
Growth target w (w', r) =
    ((n : ℕ) × (c : ℕ) × (r ≡ partitions n)
      × (admin.list_topic (lit "logs") w ≡ some c)
      × (n ≡ max c target)
      × (admin.list_topic (lit "logs") w' ≡ some n))
    ⊎ (r ≡ partitions_failed)
      × ((admin.list_topic (lit "logs") w' ≡ admin.list_topic (lit "logs") w)
          ⊎ ((c : ℕ) × (admin.list_topic (lit "logs") w ≡ some c)
              × (c < target)
              × (admin.list_topic (lit "logs") w' ≡ some target)))

ensure_topic_partitions_lem_example : Growth 10 3 (ensure_topic_partitions admin (lit "logs") 10 3)
ensure_topic_partitions_lem_example =
    ensure_topic_partitions_lem admin (lit "logs") 10 3 admin-IsBroker
