-- ===== src/Tests/Writer.antt =====
-- internal/ingestion/core/writer.go and the row mappers on concrete inputs.
use ingest.Prelude.{
  All, List, [], elem, length, lit, map, nat_key, none, refl, some, text_key, true, ℕ, ◌∷◌, ◌≡◌,
}
use ingest.Columns.{Slots, map_row, string_cell, uint32_cell}
use ingest.Columns.Stats.{stats_columns}
use ingest.Columns.Mapped.{
  AreWritten, TableRow, columns_of, map_row_written, row_image, schema_of, stat_row, values_of,
}
use ingest.Stats.{StatRow, stat_key_order}
use ingest.Writer.{ClickHouseWriter, insert_rows}
use ingest.Writer.Atomic.{Inserts, Part, insert_rows_refines}
use ingest.Tests.Samples.{all_rows, server, server-IsClickHouse}
use ingest.Writer.Tables.{stats-Fills, stats_writer}

abbrev usage : ℕ → StatRow
usage n = record {
  tenant_id = 7;
  fingerprint = 0;
  bucket_unix = 3600;
  signal = lit "spans";
  service = lit "shop";
  environment = [];
  record_count = n;
  byte_count = 100;
}

abbrev writer : ClickHouseWriter ℕ StatRow
writer = stats_writer

abbrev image : StatRow → Slots ℕ
image r = row_image (stat_row r)

abbrev two_rows : List StatRow
two_rows = usage 1 ∷ usage 2 ∷ []

-- the server has a part under the token "b" already
abbrev parts : List (Part ℕ)
parts =
    record { token = lit "b"; query = writer.query; partition = []; rows = map image two_rows } ∷ []

insert_rows_refines_example :
    Inserts server all_rows
      (λ s. s)
      (λ b. b)
      writer
      image
      (lit "a")
      two_rows
      parts
      (insert_rows server writer (lit "a") two_rows parts)
insert_rows_refines_example =
    insert_rows_refines server all_rows (λ s. s) (λ b. b) writer image (lit "a") two_rows parts
      server-IsClickHouse stats-Fills (λ e. cc)

abbrev one_row : TableRow ℕ
one_row = stat_row (usage 1)

abbrev dirty : Slots ℕ
dirty =
    some (string_cell (lit "left")) ∷ none ∷ none ∷ none ∷ none ∷ none ∷ some (uint32_cell 9) ∷ []

seven : length dirty ≡ length (columns_of one_row)
unfolding columns_of stats_columns
seven = refl

map_row_written_example :
    (slots : Slots ℕ) × (map_row (values_of one_row) dirty ≡ some slots)
    × (length slots ≡ length (columns_of one_row))
    × AreWritten (columns_of one_row) slots (schema_of one_row)
    × All (λ c. elem c (map (λ p. p.0) (schema_of one_row)) ≡ true) (columns_of one_row)
map_row_written_example = map_row_written one_row dirty seven
