-- ===== src/Columns.antt =====
-- What is written into ClickHouse for each row: the values in the `[]any` of a row mapper, and the
-- types of the columns that they go into (mapping.go of each signal, and db/*.sql).
pub mod Spans
pub mod Logs
pub mod Metrics
pub mod Series
pub mod Stats
pub mod Scores
pub mod Mapped
use ingest.Prelude.{
  Bool, GoString, List, Option, [], nat_key, none, some, suc, text_key, zero, ℕ, ◌*◌, ◌∷◌,
}
use ingest.Prelude.Int.{pos, ℤ}
use ingest.GoMap.{GoMap}
use ingest.Infra.Otlp.{StringMap}
use ingest.Spans.Row.{RowSpanEvent, RowSpanLink}

-- A value that a row mapper assigns, by its Go type. `F` stands for `float64`.
pub data Cell (F : Type 0) : Type 0 where
  uint8_cell : ℕ → Cell F
  uint32_cell : ℕ → Cell F
  uint64_cell : ℕ → Cell F
  int8_cell : ℤ → Cell F
  int16_cell : ℤ → Cell F
  bool_cell : Bool → Cell F
  string_cell : GoString → Cell F
  float64_cell : F → Cell F
  -- a `time.Time`, as nanoseconds since 1970
  time_cell : ℤ → Cell F
  strings_cell : List GoString → Cell F
  float64s_cell : List F → Cell F
  uint64s_cell : List ℕ → Cell F
  string_map_cell : StringMap → Cell F
  float64_map_cell : GoMap GoString F → Cell F
  bool_map_cell : GoMap GoString Bool → Cell F
  events_cell : List RowSpanEvent → Cell F
  links_cell : List RowSpanLink → Cell F

-- `time.Unix(n, 0)`
abbrev pub unix_seconds : ℕ → ℤ
unix_seconds n = pos (n * 1000000000)

-- The types of the columns. A low-cardinality string is a string to the driver, and a time goes
-- into a `DateTime` and a `DateTime64` alike.
pub data ColumnType : Type 0 where
  uint8_column : ColumnType
  uint32_column : ColumnType
  uint64_column : ColumnType
  int8_column : ColumnType
  int16_column : ColumnType
  bool_column : ColumnType
  string_column : ColumnType
  float64_column : ColumnType
  date_time_column : ColumnType
  string_array_column : ColumnType
  float64_array_column : ColumnType
  uint64_array_column : ColumnType
  string_map_column : ColumnType
  float64_map_column : ColumnType
  bool_map_column : ColumnType
  event_array_column : ColumnType
  link_array_column : ColumnType

abbrev pub Schema : Type 0 → Type 0
Schema F = List (GoString × ColumnType × Cell F)

-- A slot of a `[]any`; `none` is nil.
abbrev pub Slots : Type 0 → Type 0
Slots F = List (Option (Cell F))

-- `dst[i] = v` for each pair, in order
abbrev pub Assignments : Type 0 → Type 0
Assignments F = List (ℕ × Cell F)

-- the type of the column that takes values of a Go type
abbrev pub column_of : {F : Type 0} → Cell F → ColumnType
column_of (uint8_cell _) = uint8_column
column_of (uint32_cell _) = uint32_column
column_of (uint64_cell _) = uint64_column
column_of (int8_cell _) = int8_column
column_of (int16_cell _) = int16_column
column_of (bool_cell _) = bool_column
column_of (string_cell _) = string_column
column_of (float64_cell _) = float64_column
column_of (time_cell _) = date_time_column
column_of (strings_cell _) = string_array_column
column_of (float64s_cell _) = float64_array_column
column_of (uint64s_cell _) = uint64_array_column
column_of (string_map_cell _) = string_map_column
column_of (float64_map_cell _) = float64_map_column
column_of (bool_map_cell _) = bool_map_column
column_of (events_cell _) = event_array_column
column_of (links_cell _) = link_array_column

module _ {F : Type 0} where
  -- `dst[i] = v`; out of range it panics
  unfoldable pub assign : ℕ → Cell F → Slots F → Option (Slots F)
  assign i v [] = none
  assign zero v (x ∷ dst) = some (some v ∷ dst)
  assign (suc i) v (x ∷ dst) = elim (assign i v dst) [ none ↦ none | some dst' ↦ some (x ∷ dst') ]

  -- a call of a row mapper: all its assignments; `none` is a panic
  unfoldable pub map_row : Assignments F → Slots F → Option (Slots F)
  unfolding assign
  map_row [] dst = some dst
  map_row ((i, v) ∷ rest) dst = elim (assign i v dst) [
    | none ↦ none
    | some dst' ↦ map_row rest dst'
  ]
