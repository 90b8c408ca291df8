-- ===== src/App/GrpcMetrics.antt =====
-- internal/app/grpc_metrics.go: the counters of the gRPC calls, by method.
pub mod Counted
use ingest.Prelude.{GoString, Key, Option, nat_key, none, some, suc, text_key, zero, ℕ}
use ingest.Prelude.Int.{negsuc, pos, ℤ}
use ingest.Prelude.Pairs.{pair_key}
use ingest.GoMap.{GoMap, insert, lookup}
use ingest.Rpc.{RpcResult, Status, failed, response}
use ingest.Kafka.Signal.{count}

pub record GrpcCounters : Type 0 where
  pub started : GoMap GoString ℕ
  pub in_flight : GoMap GoString ℤ
  pub handled : GoMap (GoString × GoString) ℕ

-- the key of `GRPCHandled`: the method and the code
instance abbrev pub handled_key : Key (GoString × GoString)
handled_key = pair_key text_key text_key

-- `Inc` and `Dec` of a gauge
unfoldable pub inc : ℤ → ℤ
inc (pos n) = pos (suc n)
inc (negsuc zero) = pos 0
inc (negsuc (suc n)) = negsuc n

unfoldable pub dec : ℤ → ℤ
dec (pos zero) = negsuc 0
dec (pos (suc n)) = pos n
dec (negsuc n) = negsuc (suc n)

-- the gauge with a label, which is 0 before it is set
abbrev pub gauge : GoString → GoMap GoString ℤ → ℤ
gauge m gauges = elim (lookup m gauges) [ none ↦ pos 0 | some x ↦ x ]

unfoldable pub adjust : (ℤ → ℤ) → GoString → GoMap GoString ℤ → GoMap GoString ℤ
adjust f m gauges = insert m (f (gauge m gauges)) gauges

-- What is counted before the handler, as one step: the two increments are of different counters.
unfoldable pub enter : GoString → GrpcCounters → GrpcCounters
unfolding count adjust inc
enter method c = record c {
  started = count method 1 c.started;
  in_flight = adjust inc method c.in_flight;
}

-- What is counted after it, as one step; the gauge is set by the deferred call.
unfoldable pub leave : GoString → GoString → GrpcCounters → GrpcCounters
unfolding count adjust dec
leave method code c = record c {
  handled = count ⦃key = handled_key⦄ (method, code) 1 c.handled;
  in_flight = adjust dec method c.in_flight;
}

abbrev pub error_of {ℓ} : {A : Type ℓ} → RpcResult A → Option Status
error_of (response _) = none
error_of (failed e) = some e

-- `grpcMetricsUnary`; `code` is `status.Code(err).String()`, where `none` is nil
unfoldable pub grpc_metrics_unary :
    {W Resp : Type 0}
    → (Option Status → GoString)
    → GoString
    → (W → W × RpcResult Resp)
    → GrpcCounters
    → W
    → GrpcCounters × (W × RpcResult Resp)
unfolding enter leave
grpc_metrics_unary code method handler c w =
    let c' = enter method c in
    let (w', r) = handler w in (leave method (code (error_of r)) c', (w', r))

-- `grpcMetricsStream`
unfoldable pub grpc_metrics_stream :
    {W : Type 0}
    → (Option Status → GoString)
    → GoString
    → (W → W × Option Status)
    → GrpcCounters
    → W
    → GrpcCounters × (W × Option Status)
unfolding enter leave
grpc_metrics_stream code method handler c w =
    let c' = enter method c in let (w', err) = handler w in (leave method (code err) c', (w', err))
