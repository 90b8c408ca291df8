-- ===== src/Core/Async.antt =====
-- internal/ingestion/core/async_publisher.go: side-effect rows published off the request path, by
-- workers that share a bounded channel.
pub mod Safety
pub mod Live
use ingest.Prelude.{
  Bool, List, Option, [], false, if◌then◌else◌, length, ltb, nat_beq, nat_key, none, some, suc,
  text_key, true, zero, ℕ, ◌&&◌, ◌++◌, ◌+◌, ◌-◌, ◌∷◌, ◌≡◌,
}

pub record AsyncPublisher (Row : Type 0) : Type 0 where
  -- the channel: what is buffered, its size, and whether it is closed
  pub queue : List (List Row)
  pub queue_size : ℕ
  pub queue_closed : Bool
  -- `a.closed`, guarded by the mutex
  pub closed : Bool
  -- workers that wait for a batch, and the batches that the others are publishing
  pub idle : ℕ
  pub busy : List (List Row)
  -- rows, by what became of them
  pub published : ℕ
  pub dropped : ℕ

module _ {Row : Type 0} where
  -- `NewAsyncPublisher`
  unfoldable pub new_async_publisher : ℕ → ℕ → AsyncPublisher Row
  new_async_publisher queue_size workers = record {
    queue = [];
    queue_size = queue_size;
    queue_closed = false;
    closed = false;
    idle = workers;
    busy = [];
    published = 0;
    dropped = 0;
  }

  -- `drop`
  unfoldable pub drop_rows : ℕ → AsyncPublisher Row → AsyncPublisher Row
  drop_rows rows a = record a { dropped = a.dropped + rows }

  -- `select { case a.queue <- rows: default: a.drop(len(rows)) }`. A send on a closed channel
  -- panics, which is `none`; a channel with no buffer hands over to a worker that waits.
  unfoldable pub send_or_drop : List Row → AsyncPublisher Row → Option (AsyncPublisher Row)
  unfolding drop_rows
  send_or_drop rows a =
      if a.queue_closed
      then none
      else if ltb (length a.queue) a.queue_size
      then some (record a { queue = a.queue ++ rows ∷ [] })
      else if nat_beq a.queue_size 0 && ltb 0 a.idle
      then some (record a { idle = a.idle - 1; busy = rows ∷ a.busy })
      else some (drop_rows (length rows) a)

  -- `Enqueue`, under the read lock
  unfoldable pub enqueue : List Row → AsyncPublisher Row → Option (AsyncPublisher Row)
  unfolding send_or_drop
  enqueue [] a = some a
  enqueue (r ∷ rs) a =
      if a.closed then some (drop_rows (length (r ∷ rs)) a) else send_or_drop (r ∷ rs) a

  -- `Close`, up to the wait for the workers, under the lock. A second close of a channel panics.
  unfoldable pub close : AsyncPublisher Row → Option (AsyncPublisher Row)
  close a =
      if a.closed
      then some a
      else if a.queue_closed
      then none
      else some (record a { closed = true; queue_closed = true })

  -- `worker`: a waiting worker receives the oldest batch
  unfoldable pub receive : AsyncPublisher Row → Option (AsyncPublisher Row)
  receive a = elim a.idle [
    | zero ↦ none
    | suc n ↦ elim a.queue [
      | [] ↦ none
      | rows ∷ rest ↦ some (record a { queue = rest; idle = n; busy = rows ∷ a.busy })
    ]
  ]

  -- removes one batch from those in flight
  unfoldable pub remove_at : ℕ → List (List Row) → Option (List Row × List (List Row))
  remove_at i [] = none
  remove_at zero (b ∷ bs) = some (b, bs)
  remove_at (suc i) (b ∷ bs) = elim (remove_at i bs) [
    | none ↦ none
    | some (c, cs) ↦ some (c, b ∷ cs)
  ]

  -- `worker`: the `i`-th publish in flight ends, well or with an error, and its worker waits again
  unfoldable pub finish : ℕ → Bool → AsyncPublisher Row → Option (AsyncPublisher Row)
  unfolding remove_at drop_rows
  finish i ok a = elim (remove_at i a.busy) [
    | none ↦ none
    | some (rows, others) ↦
        let a' = record a { busy = others; idle = a.idle + 1 } in
        if ok
        then some (record a' { published = a.published + length rows })
        else some (drop_rows (length rows) a')
  ]

-- What a goroutine does next: a request enqueues, the owner closes, a worker receives or finishes.
pub data Action (Row : Type 0) : Type 0 where
  enqueues : List Row → Action Row
  closes : Action Row
  receives : Action Row
  finishes : ℕ → Bool → Action Row

-- One action; `none` if it cannot happen now, or panics.
unfoldable pub act : {Row : Type 0} → Action Row → AsyncPublisher Row → Option (AsyncPublisher Row)
unfolding enqueue close receive finish
act (enqueues rows) a = enqueue rows a
act closes a = close a
act receives a = receive a
act (finishes i ok) a = finish i ok a

-- The rows that an action offers to the publisher.
abbrev pub offered : {Row : Type 0} → Action Row → ℕ
offered (enqueues rows) = length rows
offered _ = 0

-- The states that some interleaving of actions reaches, with the rows offered so far.
pub data Reach {Row : Type 0} (queue_size workers : ℕ) : ℕ → AsyncPublisher Row → Type 0 where
  start : Reach queue_size workers 0 (new_async_publisher queue_size workers)
  next :
      {n : ℕ} {a : AsyncPublisher Row}
      → Reach queue_size workers n a
      → (x : Action Row) (b : AsyncPublisher Row) → act x a ≡ some b
      → Reach queue_size workers (n + offered x) b
