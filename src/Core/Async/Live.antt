-- ===== src/Core/Async/Live.antt =====
-- The reachable states of the asynchronous publisher.
use native.Mathlib.Nat.{add-zero}
use ingest.Prelude.{
  List, List-cases, ap, arith, inl, inr, length, nat_key, refl, some, suc, text_key, true, ℕ, ◌*◌,
  ◌+◌, ◌-◌, ◌<◌, ◌∷◌, ◌≡◌, ◌⊎◌,
}
use ingest.Core.Async.{
  Action, AsyncPublisher, Reach, act, close, closes, enqueue, enqueues, finishes,
  new_async_publisher, next, offered, receives, start,
}
use ingest.Core.Async.Safety.{
  IsSound, close-IsSound, close_total, enqueue-IsSound, enqueue_total, finish-IsSound,
  receive-IsSound, rows_in,
}

-- What the workers still have to do.
abbrev pub work : {Row : Type 0} → AsyncPublisher Row → ℕ
work a = 2 * length a.queue + length a.busy

-- A worker action that leaves less work and takes no new row.
abbrev pub Progress : {Row : Type 0} → AsyncPublisher Row → Type 0
Progress {Row} a =
    (x : Action Row) × (b : AsyncPublisher Row) × (act x a ≡ some b)
    × (work b < work a)
    × (offered x ≡ 0)

module _ {Row : Type 0} (a : AsyncPublisher Row) where
  finish-Progress : (b : List Row) (bs : List (List Row)) → a.busy ≡ b ∷ bs → Progress a
  unfolding act
  finish-Progress b bs e = (
    finishes 0 true,
    record a { busy = bs; idle = a.idle + 1; published = a.published + length b },
    ground arith,
    ground arith,
    refl,
  )

  receive-Progress :
      (n : ℕ) (rows : List Row) (rest : List (List Row))
      → a.idle ≡ suc n
      → a.queue ≡ rows ∷ rest
      → Progress a
  unfolding act
  receive-Progress n rows rest e f = (
    receives,
    record a { queue = rest; idle = n; busy = rows ∷ a.busy },
    ground arith,
    ground arith,
    refl,
  )

module _ {Row : Type 0} {queue_size workers : ℕ} where
  start-IsSound : IsSound queue_size workers 0 (new_async_publisher {Row = Row} queue_size workers)
  unfolding new_async_publisher
  start-IsSound = record {
    accounted = omega arith;
    size = refl;
    bounded = omega arith;
    agree = refl;
    staffed = omega arith;
  }

  act-IsSound :
      {n : ℕ} {a : AsyncPublisher Row} (x : Action Row) (b : AsyncPublisher Row)
      → IsSound queue_size workers n a
      → act x a ≡ some b
      → IsSound queue_size workers (n + offered x) b
  unfolding act
  act-IsSound (enqueues rows) b s h = enqueue-IsSound s rows b h
  act-IsSound closes b s h = rw add-zero (close-IsSound s b h)
  act-IsSound receives b s h = rw add-zero (receive-IsSound s b h)
  act-IsSound (finishes i ok) b s h = rw add-zero (finish-IsSound s i ok b h)

  -- Whatever the interleaving of requests, workers and the close: every row that was enqueued is in
  -- the channel, in flight, published or counted as dropped; the channel never holds more than its
  -- size, it is closed exactly if the publisher is, and every worker waits or publishes.
  pub Reach-IsSound :
      {n : ℕ} {a : AsyncPublisher Row}
      → Reach queue_size workers n a
      → IsSound queue_size workers n a
  Reach-IsSound start = start-IsSound
  Reach-IsSound (next r x b h) = act-IsSound x b (Reach-IsSound r) h

  -- In no reachable state does an enqueue or a close panic: no row is sent on a closed channel, and
  -- the channel is not closed twice.
  pub Reach-never_panics :
      {n : ℕ} {a : AsyncPublisher Row}
      → Reach queue_size workers n a
      → ((rows : List Row) → (b : AsyncPublisher Row) × (enqueue rows a ≡ some b))
        × ((b : AsyncPublisher Row) × (close a ≡ some b))
  Reach-never_panics {a = a} r =
      let s = Reach-IsSound r in (λ rows. enqueue_total a s.agree rows, close_total a s.agree)

  -- Close waits for no batch for ever: as long as there are workers and a batch is queued or in
  -- flight, some worker can act, and its action leaves less work and takes no new row. Where no
  -- batch is left, every row that was enqueued has been published or counted as dropped.
  pub Reach-drains :
      {n : ℕ} {a : AsyncPublisher Row}
      → 0 < workers
      → Reach queue_size workers n a
      → Progress a ⊎ ((work a ≡ 0) × (a.published + a.dropped ≡ n))
  Reach-drains {a = a} w r = elim (List-cases a.busy) [
    | inr (b, bs, e) ↦ inl (finish-Progress a b bs e)
    | inl e ↦ elim (List-cases a.queue) [
      | inr (rows, rest, f) ↦ inl (
          receive-Progress a (a.idle - 1) rows rest
            (omega (arith, (Reach-IsSound r).staffed, ap length e)) f)
      | inl f ↦ inr (
        omega (arith, ap length e, ap length f),
        omega (arith, (Reach-IsSound r).accounted, ap rows_in e, ap rows_in f),
      )
    ]
  ]
