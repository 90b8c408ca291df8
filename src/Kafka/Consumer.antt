-- ===== src/Kafka/Consumer.antt =====
-- consumer.go: one fetch loop, some workers and one committer, over channels. A batch is known by
-- its number in the order of the fetches; a polled batch is never empty.
pub mod Ordered
pub mod Live
use ingest.Prelude.{
  Bool, List, Option, [], elem, false, if◌then◌else◌, length, ltb, nat_beq, nat_key, none, some,
  suc, text_key, true, zero, ℕ, ◌&&◌, ◌*◌, ◌++◌, ◌+◌, ◌∷◌, ◌≡◌,
}
use ingest.GoMap.{GoMap, lookup}

-- the goroutines of `Run` and their channels
pub record Pipeline : Type 0 where
  pub workers : ℕ
  -- batches that the fetch loop has sent to the workers
  pub fetched : ℕ
  -- the fetch loop has not returned
  pub running : Bool
  -- the batch that it has sent to the workers and not yet to the committer
  pub handing : Option ℕ
  pub worker_chan : List ℕ
  -- the batch that the committer has received and waits for, and those in its channel
  pub committer_chan : List ℕ
  pub idle : ℕ
  pub busy : List ℕ
  -- what the `done` channels hold or held: whether the handler returned nil
  pub done : GoMap ℕ Bool
  pub committed : List ℕ
  pub batches_dropped : ℕ

-- `NewConsumer` and the start of `Run`
unfoldable pub new_pipeline : ℕ → Pipeline
new_pipeline workers = record {
  workers = workers;
  fetched = 0;
  running = true;
  handing = none;
  worker_chan = [];
  committer_chan = [];
  idle = workers;
  busy = [];
  done = [];
  committed = [];
  batches_dropped = 0;
}

-- `fetchLoop`: a poll that gives records, and the send to the workers, which waits for room
unfoldable pub fetch : Pipeline → Option Pipeline
fetch p = elim p.handing [
  | some j ↦ none
  | none ↦
      if p.running && ltb (length p.worker_chan) (p.workers * 2)
      then some (record p {
        worker_chan = p.worker_chan ++ p.fetched ∷ [];
        handing = some p.fetched;
        fetched = p.fetched + 1;
      })
      else none
]

-- `fetchLoop`: the send to the committer. There is room in the channel, or the committer, which
-- receives when it is free, has taken the first batch out of it.
unfoldable pub hand : Pipeline → Option Pipeline
hand p = elim p.handing [
  | none ↦ none
  | some j ↦
      if ltb (length p.committer_chan) (p.workers * 2 + 1)
      then some (record p { committer_chan = p.committer_chan ++ j ∷ []; handing = none })
      else none
]

-- `fetchLoop`: the context is done, at the poll or at one of the sends
unfoldable pub stop : Pipeline → Option Pipeline
stop p = some (record p { running = false; handing = none })

-- `workerLoop`: a waiting worker receives the oldest batch
unfoldable pub take_job : Pipeline → Option Pipeline
take_job p = elim p.idle [
  | zero ↦ none
  | suc n ↦ elim p.worker_chan [
    | [] ↦ none
    | j ∷ js ↦ some (record p { worker_chan = js; idle = n; busy = j ∷ p.busy })
  ]
]

unfoldable pub remove_job : ℕ → List ℕ → List ℕ
remove_job j [] = []
remove_job j (b ∷ bs) = if nat_beq b j then bs else b ∷ remove_job j bs

-- `workerLoop`: the handler returns nil, or an error, or panics and is recovered (`ok` is false)
unfoldable pub finish_job : ℕ → Bool → Pipeline → Option Pipeline
unfolding remove_job
finish_job j ok p =
    if elem j p.busy
    then some (record p { busy = remove_job j p.busy; idle = p.idle + 1; done = (j, ok) ∷ p.done })
    else none

-- `committerLoop`: the oldest batch whose handler is done is committed, failed or not
unfoldable pub commit : Pipeline → Option Pipeline
unfolding lookup
commit p = elim p.committer_chan [
  | [] ↦ none
  | j ∷ js ↦ elim (lookup j p.done) [
    | none ↦ none
    | some ok ↦ some (record p {
      committer_chan = js;
      committed = p.committed ++ j ∷ [];
      batches_dropped = if ok then p.batches_dropped else p.batches_dropped + 1;
    })
  ]
]

pub data Move : Type 0 where
  fetches : Move
  hands : Move
  stops : Move
  takes : Move
  finishes : ℕ → Bool → Move
  commits : Move

unfoldable pub move : Move → Pipeline → Option Pipeline
unfolding fetch hand stop take_job finish_job commit
move fetches p = fetch p
move hands p = hand p
move stops p = stop p
move takes p = take_job p
move (finishes j ok) p = finish_job j ok p
move commits p = commit p

-- The states that some interleaving of the goroutines reaches.
pub data Reach (workers : ℕ) : Pipeline → Type 0 where
  start : Reach workers (new_pipeline workers)
  next :
      {p : Pipeline}
      → Reach workers p
      → (m : Move) (q : Pipeline) → move m p ≡ some q
      → Reach workers q
