-- ===== src/Columns/Stats.antt =====
-- The table of usage statistics and its rows (ingestionstats/mapping.go).
use ingest.Prelude.{GoString, List, [], lit, nat_key, text_key, ◌∷◌}
use ingest.Columns.{
  Assignments, Schema, date_time_column, string_cell, string_column, time_cell, uint32_cell,
  uint32_column, uint64_cell, uint64_column, unix_seconds,
}
use ingest.Stats.{StatRow, stat_key_order}

-- `chStatsTable`
abbrev pub stats_table : GoString
stats_table = lit "optikk.ingestion_stats"

-- `chStatsColumns`
unfoldable pub stats_columns : List GoString
stats_columns =
    lit "tenant_id"
    ∷ lit "bucket_hour"
    ∷ lit "signal"
    ∷ lit "service"
    ∷ lit "environment"
    ∷ lit "record_count"
    ∷ lit "byte_count"
    ∷ []

-- `statRowValues`: the assignments to `dst`, in order
unfoldable pub stats_values : {F : Type 0} → StatRow → Assignments F
stats_values r =
    (0, uint32_cell r.tenant_id)
    ∷ (1, time_cell (unix_seconds r.bucket_unix))
    ∷ (2, string_cell r.signal)
    ∷ (3, string_cell r.service)
    ∷ (4, string_cell r.environment)
    ∷ (5, uint64_cell r.record_count)
    ∷ (6, uint64_cell r.byte_count)
    ∷ []

-- The columns of the table that rows are inserted with, as db/07_ingestion_stats.sql declares them, and the
-- value that each of them is meant to hold.
unfoldable pub stats_schema : {F : Type 0} → StatRow → Schema F
stats_schema r =
    (lit "tenant_id", uint32_column, uint32_cell r.tenant_id)
    ∷ (lit "bucket_hour", date_time_column, time_cell (unix_seconds r.bucket_unix))
    ∷ (lit "signal", string_column, string_cell r.signal)
    ∷ (lit "service", string_column, string_cell r.service)
    ∷ (lit "environment", string_column, string_cell r.environment)
    ∷ (lit "record_count", uint64_column, uint64_cell r.record_count)
    ∷ (lit "byte_count", uint64_column, uint64_cell r.byte_count)
    ∷ []
