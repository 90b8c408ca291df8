-- ===== src/Writer.antt =====
-- internal/ingestion/core/writer.go: a batch of rows into a table of ClickHouse.
pub mod Atomic
pub mod Tables
pub mod Consumer
pub mod Stored
use ingest.Prelude.{
  GoString, List, Option, [], inl, inr, length, lit, nat_key, none, some, suc, text_key, zero, ℕ,
  ◌++◌, ◌∷◌, ◌⊎◌,
}
use ingest.Columns.{Assignments, Slots, map_row}

-- What the writer calls of clickhouse-go: `B` are batches, `W` the connection and the server. A
-- preparation, with the `insert_deduplication_token` of the context and the query, gives a batch or
-- an error.
pub record ClickHouse (F B W : Type 0) : Type 0 where
  pub prepare_batch : GoString → GoString → W → W × (GoString ⊎ B)
  pub append : Slots F → B → B × Option GoString
  pub send : B → W → W × Option GoString

-- `ClickHouseWriter`, but for its connection and the name for its metrics
pub record ClickHouseWriter (F Row : Type 0) : Type 0 where
  pub query : GoString
  pub col_count : ℕ
  pub row_mapper : Row → Assignments F

-- `strings.Join(parts, ", ")`
unfoldable pub join_comma : List GoString → GoString
join_comma [] = []
join_comma (p ∷ []) = p
join_comma (p ∷ q ∷ ps) = p ++ lit ", " ++ join_comma (q ∷ ps)

-- `NewClickHouseWriter`
unfoldable pub new_click_house_writer :
    {F Row : Type 0} → GoString → List GoString → (Row → Assignments F) → ClickHouseWriter F Row
unfolding join_comma
new_click_house_writer table columns row_mapper = record {
  query = lit "INSERT INTO " ++ table ++ lit " (" ++ join_comma columns ++ lit ")";
  col_count = length columns;
  row_mapper = row_mapper;
}

-- `make([]any, n)`
unfoldable pub make_slots : {F : Type 0} → ℕ → Slots F
make_slots zero = []
make_slots (suc n) = none ∷ make_slots n

-- The result of `Insert`: nil, an error with the step that it comes from, or a panic of the mapper.
pub data Inserted : Type 0 where
  inserted : Inserted
  prepare_failed : GoString → Inserted
  append_failed : GoString → Inserted
  send_failed : GoString → Inserted
  mapper_panicked : Inserted

pub data Filled (B : Type 0) : Type 0 where
  filled : B → Filled B
  unfilled : Inserted → Filled B

module _ {F B W Row : Type 0} (ch : ClickHouse F B W) (w : ClickHouseWriter F Row) where
  -- the loop over the rows; `vals` is one slice, which each round writes into again
  unfoldable pub append_rows : List Row → Slots F → B → Filled B
  append_rows [] vals b = filled b
  append_rows (r ∷ rs) vals b = elim (map_row (w.row_mapper r) vals) [
    | none ↦ unfilled mapper_panicked
    | some vals' ↦
        let (b', err) = ch.append vals' b in
        elim err [ none ↦ append_rows rs vals' b' | some e ↦ unfilled (append_failed e) ]
  ]

  -- `Insert`, with the deduplication token that its context carries
  unfoldable pub insert_rows : GoString → List Row → W → W × Inserted
  unfolding append_rows make_slots
  insert_rows token [] s = (s, inserted)
  insert_rows token (r ∷ rs) s =
      let (s', prepared) = ch.prepare_batch token w.query s in
      elim prepared [
        | inl e ↦ (s', prepare_failed e)
        | inr b ↦ elim (append_rows (r ∷ rs) (make_slots w.col_count) b) [
          | unfilled e ↦ (s', e)
          | filled b' ↦
              let (s'', err) = ch.send b' s' in
              elim err [ none ↦ (s'', inserted) | some e ↦ (s'', send_failed e) ]
        ]
      ]
