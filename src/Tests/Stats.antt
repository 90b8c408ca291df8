-- ===== src/Tests/Stats.antt =====
-- internal/ingestion/ingestionstats on concrete inputs.
use ingest.Prelude.{
  List, [], arith, false, lit, nat_key, none, some, text_key, true, ◌%◌, ◌*◌, ◌^◌, ◌∷◌, ◌≡◌, ◌≤◌,
  ◌⊎◌,
}
use ingest.Signals.{ResourceUsage, total_records}
use ingest.Stats.{
  StatRow, StatsEvent, closed, flushed, recorded, run_events, stat_key, stat_key_order, usage_rows,
}
use ingest.Stats.Usage.{total_bytes_of, usage_rows-bytes}
use ingest.Stats.Tally.{record_counts, tally}
use ingest.Stats.Conserved.{accepted, held, run_events-conserved, start}

abbrev usage : List ResourceUsage
usage =
    record { service = lit "a"; environment = []; records = 1 }
    ∷ record { service = lit "b"; environment = []; records = 2 }
    ∷ []

usage_rows-bytes_example :
    let rows = usage_rows 7200 1 (lit "logs") usage 100 in
    (total_bytes_of rows % 2 ^ 64 ≡ 100)
    × ((2 ^ 64 ≤ 100 * total_records usage) ⊎ (total_bytes_of rows ≡ 100))
usage_rows-bytes_example =
    usage_rows-bytes 7200 1 (lit "logs") usage 100 (omega arith) (λ p. absurd (omega (arith, p)))

abbrev row : StatRow
row = record {
  tenant_id = 1;
  fingerprint = 0;
  bucket_unix = 7200;
  signal = lit "logs";
  service = lit "a";
  environment = [];
  record_count = 3;
  byte_count = 40;
}

abbrev events : List StatsEvent
events =
    recorded (some row ∷ none ∷ [])
    ∷ recorded (some row ∷ [])
    ∷ flushed false
    ∷ recorded (some row ∷ [])
    ∷ closed
    ∷ recorded (some row ∷ [])
    ∷ flushed true
    ∷ []

run_events-conserved_example :
    held record_counts (stat_key row) (run_events start events) % 2 ^ 64
    ≡ tally record_counts (stat_key row) (accepted events) % 2 ^ 64
run_events-conserved_example = run_events-conserved record_counts (stat_key row) events
