-- ===== src/App/GrpcMetrics/Counted.antt =====
-- What the interceptors add to the counters for one call.
use ingest.Prelude.{
  Bool-cases, GoString, Key, Key-sound, Option, Option-cases, ap, arith, if◌then◌else◌, inl, inr,
  nat_key, none, refl, some, suc, sym, text_beq_iff, text_key, zero, ℕ, ◌+◌, ◌==◌, ◌∙◌, ◌≡◌,
}
use ingest.Prelude.Int.{negsuc, pos, ℤ}
use ingest.Rpc.{RpcResult, Status}
use ingest.GoMap.{GoMap, insert, lookup}
use ingest.GoMap.Laws.{lookup-insert}
use ingest.Kafka.Signal.{count}
use ingest.App.GrpcMetrics.{
  GrpcCounters, adjust, dec, enter, error_of, gauge, grpc_metrics_stream, grpc_metrics_unary,
  handled_key, inc, leave,
}

-- the value of a counter
abbrev pub value {κ} : {K : Type κ} ⦃key : Key K⦄ → K → GoMap K ℕ → ℕ
value ⦃key⦄ k m = elim (lookup ⦃k = key⦄ k m) [ none ↦ 0 | some x ↦ x ]

-- One call of the method was counted as started and as handled with the code, no other, and every
-- gauge stands where it stood.
pub record IsCounted (method code : GoString) (before after : GrpcCounters) : Type 0 where
  pub started :
      (m : GoString)
      → value m after.started
        ≡ (if method == m then suc (value m before.started) else value m before.started)
  pub handled :
      (k : GoString × GoString)
      → value ⦃key = handled_key⦄ k after.handled ≡ (
          if ◌==◌ ⦃k = handled_key⦄ (method, code) k
          then suc (value ⦃key = handled_key⦄ k before.handled)
          else value ⦃key = handled_key⦄ k before.handled)
  pub in_flight : (m : GoString) → gauge m after.in_flight ≡ gauge m before.in_flight

gauge-adjust :
    (f : ℤ → ℤ) (m n : GoString) (g : GoMap GoString ℤ)
    → gauge n (adjust f m g) ≡ (if m == n then f (gauge m g) else gauge n g)
unfolding adjust
gauge-adjust f m n g = ground (arith, lookup-insert m n (f (gauge m g)) g)

count-insert :
    {K : Type 0} ⦃key : Key K⦄ (k : K) (m : GoMap K ℕ)
    → count ⦃key = key⦄ k 1 m ≡ insert ⦃k = key⦄ k (suc (value ⦃key = key⦄ k m)) m
unfolding count
count-insert ⦃key⦄ k m = elim (Option-cases (lookup ⦃k = key⦄ k m)) [
  | inl e ↦
      let unset : value ⦃key = key⦄ k m ≡ 0 = rw (e, value) in
      rw (e, count) (ap (λ n. insert ⦃k = key⦄ k (suc n) m) (sym unset))
  | inr (x, e) ↦
      let set : x + 1 ≡ suc (value ⦃key = key⦄ k m) = rw (e, value) (omega arith) in
      rw (e, count) (ap (λ n. insert ⦃k = key⦄ k n m) set)
]

value-count :
    (m n : GoString) (c : GoMap GoString ℕ)
    → value n (count m 1 c) ≡ (if m == n then suc (value n c) else value n c)
value-count m n c =
    rw (count-insert m c) (ground (arith, lookup-insert m n (suc (value m c)) c, text_beq_iff m n))

dec-inc : (x : ℤ) → dec (inc x) ≡ x
unfolding dec inc
dec-inc (pos n) = refl
dec-inc (negsuc zero) = refl
dec-inc (negsuc (suc n)) = refl

handled-count :
    (j k : GoString × GoString) (c : GoMap (GoString × GoString) ℕ)
    → value ⦃key = handled_key⦄ k (count ⦃key = handled_key⦄ j 1 c) ≡ (
        if ◌==◌ ⦃k = handled_key⦄ j k
        then suc (value ⦃key = handled_key⦄ k c)
        else value ⦃key = handled_key⦄ k c)
handled-count j k c =
    let n = suc (value ⦃key = handled_key⦄ j c) in
    rw (count-insert ⦃key = handled_key⦄ j c) (elim (Bool-cases (◌==◌ ⦃k = handled_key⦄ j k)) [
      | inl e ↦
          ground (arith, lookup-insert ⦃k = handled_key⦄ j k n c, Key-sound ⦃k = handled_key⦄ j k e)
      | inr e ↦ ground (arith, lookup-insert ⦃k = handled_key⦄ j k n c)
    ])

gauge_back :
    (method m : GoString) (g : GoMap GoString ℤ)
    → gauge m (adjust dec method (adjust inc method g)) ≡ gauge m g
gauge_back method m g =
    gauge-adjust dec method m (adjust inc method g) ∙ elim (Bool-cases (method == m)) [
      | inl e ↦ rw e (
          ap dec (
            gauge-adjust inc method method g
            ∙ ap (λ b. if b then inc (gauge method g) else gauge method g)
                ((text_beq_iff method method).1 refl))
          ∙ dec-inc (gauge method g)
          ∙ ap (λ x. gauge x g) (Key-sound method m e))
      | inr e ↦ rw e (gauge-adjust inc method m g ∙ rw e refl)
    ]

leave-IsCounted :
    (method code : GoString) (c : GrpcCounters)
    → IsCounted method code c (leave method code (enter method c))
unfolding enter leave
leave-IsCounted method code c = record {
  started = λ m. value-count method m c.started;
  handled = λ k. handled-count (method, code) k c.handled;
  in_flight = λ m. gauge_back method m c.in_flight;
}

-- Both interceptors give the handler's own result and state, and count the call by its method
-- whatever the handler returns: once as started, and once as handled with the code of the error that
-- the handler returned. The gauge of calls in flight of each method is back where it was, after an
-- error too, if no other call changes the counters in between.
pub interceptors-IsCounted :
    {W Resp : Type 0} (code : Option Status → GoString) (method : GoString)
    (unary : W → W × RpcResult Resp) (stream : W → W × Option Status) (c : GrpcCounters) (w : W)
    → let (after, result) = grpc_metrics_unary code method unary c w in
      let (after', result') = grpc_metrics_stream code method stream c w in
      (result ≡ unary w)
      × IsCounted method (code (error_of (unary w).1)) c after
      × (result' ≡ stream w)
      × IsCounted method (code (stream w).1) c after'
unfolding grpc_metrics_unary grpc_metrics_stream
interceptors-IsCounted code method unary stream c w = (
  refl,
  leave-IsCounted method (code (error_of (unary w).1)) c,
  refl,
  leave-IsCounted method (code (stream w).1) c,
)
