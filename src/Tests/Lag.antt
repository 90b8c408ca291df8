-- ===== src/Tests/Lag.antt =====
-- The lag of a group and the signal of a topic, on concrete inputs.
use ingest.Prelude.{
  List, [], arith, elem, if◌then◌else◌, lit, nat_key, none, refl, text_beq, text_key, ℕ, ◌∷◌, ◌≡◌,
}
use ingest.Prelude.Int.{negsuc, pos, wrap_int, ℤ, ◌-ℤ◌}
use ingest.GoMap.{GoMap, insert, lookup}
use ingest.GoStrings.{last_index_byte}
use ingest.Kafka.Signal.{signal_from_topic}
use ingest.Kafka.Lag.{committed_offset, diff_lag, part_key, partition_lag, put_lag}
use ingest.Kafka.Lag.Law.{AreOffsets, lag_or, lookup-diff_lag}

-- Partition 0 is 40 records behind, partition 1 has no committed offset.
abbrev committed : GoMap ℕ ℤ
committed = (0, pos 60) ∷ (1, negsuc 0) ∷ []

abbrev three : List ℕ
three = 0 ∷ 1 ∷ 2 ∷ []

abbrev end : GoMap ℕ ℤ
end = (0, pos 100) ∷ (1, pos 7) ∷ []

committed-AreOffsets : AreOffsets committed
unfolding lookup
committed-AreOffsets p (pos n) e = ground arith
committed-AreOffsets p (negsuc n) e = ground arith

end-AreOffsets : AreOffsets end
unfolding lookup
end-AreOffsets p (pos n) e = ground arith
end-AreOffsets p (negsuc n) e = ground arith

lookup-diff_lag_example :
    lookup (lit "logs", 0) (diff_lag (lit "logs") three committed end)
    ≡ (if elem ⦃k = nat_key⦄ 0 three then lag_or (lit "logs") committed end 0 none else none)
lookup-diff_lag_example =
    lookup-diff_lag (lit "logs") committed end three 0 committed-AreOffsets end-AreOffsets

lags :
    diff_lag (lit "logs") three committed end
    ≡ ((lit "logs", 0), pos 40) ∷ ((lit "logs", 1), pos 7) ∷ []
unfolding diff_lag put_lag committed_offset partition_lag wrap_int ◌-ℤ◌ lookup insert lit text_beq
lags = refl

unknown_topic : signal_from_topic (lit "optikk.other") ≡ lit "unknown"
unfolding signal_from_topic last_index_byte lit text_beq
unknown_topic = refl
