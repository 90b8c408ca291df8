-- ===== src/Core/Async/Safety.antt =====
-- What holds of the asynchronous publisher in every state that it can reach.
use ingest.Prelude.{
  Bool, Bool-cases, List, Option-cases, [], arith, inl, inr, length, length-append, nat_key, refl,
  some, suc, text_key, true, zero, ℕ, ◌++◌, ◌+◌, ◌∷◌, ◌≡◌, ◌≤◌,
}
use ingest.Core.Async.{AsyncPublisher, close, enqueue, finish, receive, remove_at}

-- The rows of some batches.
abbrev pub rows_in : {Row : Type 0} → List (List Row) → ℕ
rows_in [] = 0
rows_in (b ∷ bs) = length b + rows_in bs

rows_in-append :
    {Row : Type 0} (bs cs : List (List Row)) → rows_in (bs ++ cs) ≡ rows_in bs + rows_in cs
rows_in-append [] cs = omega arith
rows_in-append (b ∷ bs) cs = omega (arith, rows_in-append bs cs)

-- Every row offered is queued, in flight, published or dropped; the channel holds no more than its
-- size, is closed exactly when the publisher is, and no worker is lost.
pub record IsSound {Row : Type 0} (queue_size workers n : ℕ) (a : AsyncPublisher Row) : Type 0 where
  pub accounted : rows_in a.queue + rows_in a.busy + a.published + a.dropped ≡ n
  pub size : a.queue_size ≡ queue_size
  pub bounded : length a.queue ≤ queue_size
  pub agree : a.queue_closed ≡ a.closed
  pub staffed : a.idle + length a.busy ≡ workers

remove_at-rows :
    {Row : Type 0} (i : ℕ) (bs : List (List Row)) (b : List Row) (cs : List (List Row))
    → remove_at i bs ≡ some (b, cs)
    → (length b + rows_in cs ≡ rows_in bs) × (suc (length cs) ≡ length bs)
unfolding remove_at
remove_at-rows i [] b cs h = cc
remove_at-rows zero (c ∷ bs) b cs h = ground arith
remove_at-rows (suc i) (c ∷ bs) b cs h = elim (Option-cases (remove_at i bs)) [
  | inl e ↦ ground arith
  | inr ((b', cs'), e) ↦ ground (arith, remove_at-rows i bs b' cs' e)
]

module _ {Row : Type 0} {queue_size workers n : ℕ} {a : AsyncPublisher Row}
    (s : IsSound queue_size workers n a) where
  pub enqueue-IsSound :
      (rows : List Row) (b : AsyncPublisher Row)
      → enqueue rows a ≡ some b
      → IsSound queue_size workers (n + length rows) b
  unfolding enqueue
  enqueue-IsSound [] b h = ground arith
  enqueue-IsSound (r ∷ rs) b h =
      ground (arith, rows_in-append a.queue ((r ∷ rs) ∷ []), length-append a.queue ((r ∷ rs) ∷ []))

  pub close-IsSound : (b : AsyncPublisher Row) → close a ≡ some b → IsSound queue_size workers n b
  unfolding close
  close-IsSound b h = ground arith

  pub receive-IsSound :
      (b : AsyncPublisher Row) → receive a ≡ some b → IsSound queue_size workers n b
  unfolding receive
  receive-IsSound b h = ground arith

  pub finish-IsSound :
      (i : ℕ) (ok : Bool) (b : AsyncPublisher Row)
      → finish i ok a ≡ some b
      → IsSound queue_size workers n b
  unfolding finish
  finish-IsSound i ok b h = elim (Option-cases (remove_at i a.busy)) [
    | inl e ↦ ground arith
    | inr ((rows, others), e) ↦ ground (arith, remove_at-rows i a.busy rows others e)
  ]

-- The guard of `Enqueue` and of `Close` is enough, where it agrees with the channel.
module _ {Row : Type 0} (a : AsyncPublisher Row) (agree : a.queue_closed ≡ a.closed) where
  pub enqueue_total : (rows : List Row) → (b : AsyncPublisher Row) × (enqueue rows a ≡ some b)
  unfolding enqueue
  enqueue_total [] = (a, refl)
  enqueue_total (r ∷ rs) = elim (Option-cases (enqueue (r ∷ rs) a)) [
    | inl e ↦ absurd (ground arith)
    | inr sent ↦ sent
  ]

  pub close_total : (b : AsyncPublisher Row) × (close a ≡ some b)
  unfolding close
  close_total = elim (Bool-cases a.closed) [
    | inl e ↦ (a, ground arith)
    | inr e ↦ (record a { closed = true; queue_closed = true }, ground arith)
  ]
