-- ===== src/Kafka/Consumer/Ordered.antt =====
-- The order in which the Kafka consumer commits its offsets.
use mathlib.Core.Path.{subst}
use ingest.Prelude.{
  Bool, Bool-cases, List, List-cases, Option-cases, [], ap, append_assoc, ap₂, arith, elem,
  elem-append, false, if◌then◌else◌, inl, inr, length, ltb, nat_beq, nat_beq_iff, nat_key, none,
  refl, some, suc, sym, text_key, true, zero, ℕ, ◌&&◌, ◌*◌, ◌++◌, ◌+◌, ◌<◌, ◌||◌, ◌∙◌, ◌∷◌, ◌≡◌,
  ◌⊎◌,
}
use ingest.GoMap.Laws.{elem-keys_of_some}
use ingest.GoMap.{keys, lookup}
use ingest.Kafka.Consumer.{
  Move, Pipeline, Reach, commit, commits, fetch, fetches, finish_job, finishes, hand, hands, move,
  new_pipeline, next, remove_job, start, stop, stops, take_job, takes,
}

-- the batches 0 to n - 1
abbrev pub upto : ℕ → List ℕ
upto zero = []
upto (suc n) = upto n ++ n ∷ []

-- The committer has seen the batches 0 to n - 1 in this order, all those it has committed are
-- done, and every batch that was fetched is with the workers or done.
pub record IsOrdered (p : Pipeline) : Type 0 where
  pub seen : ℕ
  pub in_order : p.committed ++ p.committer_chan ≡ upto seen
  pub at_most : (p.fetched ≡ seen) ⊎ (p.fetched ≡ seen + 1)
  pub handed : (j : ℕ) → p.handing ≡ some j → (j ≡ seen) × (p.fetched ≡ seen + 1)
  pub idle_hand : p.handing ≡ none → p.running ≡ true → p.fetched ≡ seen
  pub handled : (a : ℕ) → elem a p.committed ≡ true → elem a (keys p.done) ≡ true
  pub tracked :
      (a : ℕ)
      → a < p.fetched
      → (elem a p.worker_chan || elem a p.busy || elem a (keys p.done)) ≡ true

start-IsOrdered : (workers : ℕ) → IsOrdered (new_pipeline workers)
unfolding new_pipeline
start-IsOrdered workers = record {
  seen = 0;
  in_order = refl;
  at_most = inl refl;
  handed = λ j h. cc;
  idle_hand = λ h r. refl;
  handled = λ a h. cc;
  tracked = λ a h. absurd (omega arith);
}

pub elem-snoc : (a b : ℕ) (xs : List ℕ) → elem a (xs ++ b ∷ []) ≡ (elem a xs || nat_beq b a)
elem-snoc a b xs = elem-append a xs (b ∷ []) ∙ ground arith

elem-remove_job :
    (a j : ℕ) (bs : List ℕ) → elem a bs ≡ true → (elem a (remove_job j bs) || nat_beq j a) ≡ true
unfolding remove_job
elem-remove_job a j [] h = cc
elem-remove_job a j (b ∷ bs) h =
    ground (arith, elem-remove_job a j bs, nat_beq_iff b j, nat_beq_iff b a, nat_beq_iff j a)

ℕ-cases : (n : ℕ) → (n ≡ 0) ⊎ ((m : ℕ) × (n ≡ suc m))
ℕ-cases zero = inl refl
ℕ-cases (suc m) = inr (m, refl)

module _ {p : Pipeline} (i : IsOrdered p) where
  fetch-IsOrdered : (q : Pipeline) → fetch p ≡ some q → IsOrdered q
  unfolding fetch
  fetch-IsOrdered q h = elim (Option-cases p.handing) [
    | inr (j, e) ↦ absurd (ground arith)
    | inl e ↦ elim (Bool-cases (p.running && ltb (length p.worker_chan) (p.workers * 2))) [
      | inr e2 ↦ absurd (ground arith)
      | inl e2 ↦
          let q' : Pipeline = record p {
            worker_chan = p.worker_chan ++ p.fetched ∷ [];
            handing = some p.fetched;
            fetched = p.fetched + 1;
          } in
          let is : fetch p ≡ some q' = ground (arith, e, e2) in
          let level : p.fetched ≡ i.seen = i.idle_hand e (ground arith) in
          let q'-ordered : IsOrdered q' = record {
            seen = i.seen;
            in_order = i.in_order;
            at_most = inr (omega arith);
            handed = λ j g. ground arith;
            idle_hand = λ g r. absurd (cc);
            handled = i.handled;
            tracked = λ a g.
                ground (
                  arith,
                  elem-snoc a p.fetched p.worker_chan,
                  i.tracked a,
                  nat_beq_iff p.fetched a,
                );
          } in
          subst IsOrdered (cc (is, h)) q'-ordered
    ]
  ]

  hand-IsOrdered : (q : Pipeline) → hand p ≡ some q → IsOrdered q
  unfolding hand
  hand-IsOrdered q h = elim (Option-cases p.handing) [
    | inl e ↦ absurd (ground arith)
    | inr (j, e) ↦ elim (Bool-cases (ltb (length p.committer_chan) (p.workers * 2 + 1))) [
      | inr e2 ↦ absurd (ground arith)
      | inl e2 ↦
          let q' : Pipeline = record p {
            committer_chan = p.committer_chan ++ j ∷ [];
            handing = none;
          } in
          let is : hand p ≡ some q' = ground (arith, e, e2) in
          let (number, level) = i.handed j e in
          let q'-ordered : IsOrdered q' = record {
            seen = suc i.seen;
            in_order =
                sym (append_assoc p.committed p.committer_chan (j ∷ []))
                ∙ ap₂ (λ xs n. xs ++ n ∷ []) i.in_order number;
            at_most = inl (omega arith);
            handed = λ k g. absurd (cc);
            idle_hand = λ g r. omega arith;
            handled = i.handled;
            tracked = i.tracked;
          } in
          subst IsOrdered (cc (is, h)) q'-ordered
    ]
  ]

  stop-IsOrdered : (q : Pipeline) → stop p ≡ some q → IsOrdered q
  unfolding stop
  stop-IsOrdered q h =
      let q' : Pipeline = record p { running = false; handing = none } in
      let q'-ordered : IsOrdered q' = record {
        seen = i.seen;
        in_order = i.in_order;
        at_most = i.at_most;
        handed = λ j g. absurd (cc);
        idle_hand = λ g r. absurd (cc);
        handled = i.handled;
        tracked = i.tracked;
      } in
      subst IsOrdered (cc h) q'-ordered

  take_job-IsOrdered : (q : Pipeline) → take_job p ≡ some q → IsOrdered q
  unfolding take_job
  take_job-IsOrdered q h = elim (ℕ-cases p.idle) [
    | inl e ↦ absurd (ground arith)
    | inr (n, e) ↦ elim (List-cases p.worker_chan) [
      | inl e2 ↦ absurd (ground arith)
      | inr (j, js, e2) ↦
          let q' : Pipeline = record p { worker_chan = js; idle = n; busy = j ∷ p.busy } in
          let is : take_job p ≡ some q' = rw (take_job, e, e2) in
          let q'-ordered : IsOrdered q' = record {
            seen = i.seen;
            in_order = i.in_order;
            at_most = i.at_most;
            handed = i.handed;
            idle_hand = i.idle_hand;
            handled = i.handled;
            tracked = λ a g. ground (arith, i.tracked a g, ap (elem a) e2);
          } in
          subst IsOrdered (cc (is, h)) q'-ordered
    ]
  ]

  finish_job-IsOrdered :
      (j : ℕ) (ok : Bool) (q : Pipeline) → finish_job j ok p ≡ some q → IsOrdered q
  unfolding finish_job
  finish_job-IsOrdered j ok q h = elim (Bool-cases (elem j p.busy)) [
    | inr e ↦ absurd (ground arith)
    | inl e ↦
        let q' : Pipeline = record p {
          busy = remove_job j p.busy;
          idle = p.idle + 1;
          done = (j, ok) ∷ p.done;
        } in
        let is : finish_job j ok p ≡ some q' = ground (arith, e) in
        let q'-ordered : IsOrdered q' = record {
          seen = i.seen;
          in_order = i.in_order;
          at_most = i.at_most;
          handed = i.handed;
          idle_hand = i.idle_hand;
          handled = λ a g. ground (arith, i.handled a g);
          tracked = λ a g. ground (arith, i.tracked a g, elem-remove_job a j p.busy);
        } in
        subst IsOrdered (cc (is, h)) q'-ordered
  ]

  commit-IsOrdered : (q : Pipeline) → commit p ≡ some q → IsOrdered q
  unfolding commit
  commit-IsOrdered q h = elim (List-cases p.committer_chan) [
    | inl e ↦ absurd (ground arith)
    | inr (j, js, e) ↦ elim (Option-cases (lookup j p.done)) [
      | inl e2 ↦ absurd (ground (arith, e, e2))
      | inr (ok, e2) ↦
          let q' : Pipeline = record p {
            committer_chan = js;
            committed = p.committed ++ j ∷ [];
            batches_dropped = if ok then p.batches_dropped else p.batches_dropped + 1;
          } in
          let is : commit p ≡ some q' = rw (commit, e, e2) in
          let q'-ordered : IsOrdered q' = record {
            seen = i.seen;
            in_order =
                append_assoc p.committed (j ∷ []) js
                ∙ ap (λ xs. p.committed ++ xs) (sym e)
                ∙ i.in_order;
            at_most = i.at_most;
            handed = i.handed;
            idle_hand = i.idle_hand;
            handled = λ a g. ground (
              arith,
              elem-snoc a j p.committed,
              i.handled a,
              elem-keys_of_some j p.done e2,
              nat_beq_iff j a,
            );
            tracked = i.tracked;
          } in
          subst IsOrdered (cc (is, h)) q'-ordered
    ]
  ]

move-IsOrdered :
    (p : Pipeline) (m : Move) (q : Pipeline) → move m p ≡ some q → IsOrdered p → IsOrdered q
unfolding move
move-IsOrdered p fetches q h i = fetch-IsOrdered i q h
move-IsOrdered p hands q h i = hand-IsOrdered i q h
move-IsOrdered p stops q h i = stop-IsOrdered i q h
move-IsOrdered p takes q h i = take_job-IsOrdered i q h
move-IsOrdered p (finishes j ok) q h i = finish_job-IsOrdered i j ok q h
move-IsOrdered p commits q h i = commit-IsOrdered i q h

-- In every reachable state of the consumer the committed batches, and after them those that wait for
-- the committer, are the batches 0, 1, 2, … in the order of their fetches, without a gap; each
-- committed batch has had its handler return; and each fetched batch waits for a worker, is with
-- one, or is done.
pub Reach-IsOrdered : {workers : ℕ} (p : Pipeline) → Reach workers p → IsOrdered p
Reach-IsOrdered p start = start-IsOrdered _
Reach-IsOrdered p (next r m q h) = move-IsOrdered _ m q h (Reach-IsOrdered _ r)
