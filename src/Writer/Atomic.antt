-- ===== src/Writer/Atomic.antt =====
-- The writer against a table with partitions and a deduplication window, as those of db/*.sql.
use mathlib.Core.List.{append-nil}
use mathlib.Core.Path.{subst}
use ingest.Prelude.{
  All, GoString, List, Option-cases, Sum-cases, [], ap, append_assoc, elem, false, if◌then◌else◌,
  inl, inr, length, map, nat_key, none, refl, some, suc, sym, text_key, zero, ℕ, ◌++◌, ◌==◌, ◌∙◌,
  ◌∷◌, ◌≡◌, ◌≢◌, ◌⊎◌,
}
use ingest.Columns.{Assignments, Slots, map_row}
use ingest.Writer.{
  ClickHouse, ClickHouseWriter, Inserted, append_failed, append_rows, filled, insert_rows, inserted,
  make_slots, mapper_panicked, unfilled,
}

-- No partition is named twice.
abbrev pub Unique : List GoString → Type 0
Unique [] = Unit
Unique (k ∷ ks) = (elem k ks ≡ false) × Unique ks

-- A batch of the client: its deduplication token, its query, and the slots of each row.
pub record Block (F : Type 0) : Type 0 where
  pub token : GoString
  pub query : GoString
  pub rows : List (Slots F)

-- What the server takes of a batch at a time: the rows for one partition of the table.
pub record Part (F : Type 0) : Type 0 where
  pub token : GoString
  pub query : GoString
  pub partition : GoString
  pub rows : List (Slots F)

-- `partition` stands for the PARTITION BY of the table, such as the day of the timestamp.
module _ {F : Type 0} (partition : Slots F → GoString) where
  -- the rows of one partition, in order
  abbrev pub in_partition : GoString → List (Slots F) → List (Slots F)
  in_partition k [] = []
  in_partition k (r ∷ rs) = if partition r == k then r ∷ in_partition k rs else in_partition k rs

  -- The part is the whole of the block for one partition, and not empty.
  pub record IsPartOf (b : Block F) (p : Part F) : Type 0 where
    pub token : p.token ≡ b.token
    pub query : p.query ≡ b.query
    pub whole : p.rows ≡ in_partition p.partition b.rows
    pub not_empty : p.rows ≢ []

  -- The server has taken some of the parts of the block more, none of them twice.
  pub record Grows (b : Block F) (before after : List (Part F)) : Type 0 where
    pub new : List (Part F)
    pub grown : after ≡ before ++ new
    pub parts : All (IsPartOf b) new
    pub once : Unique (map (λ p. p.partition) new)

  -- One of the parts is for this partition, under the token and the query of the block.
  abbrev pub HasPart : Block F → GoString → List (Part F) → Type 0
  HasPart b k [] = ⊥
  HasPart b k (p ∷ ps) =
      ((p.token ≡ b.token) × (p.query ≡ b.query) × (p.partition ≡ k)) ⊎ HasPart b k ps

  -- For each row of the block the server has taken a part for the row's partition under the token of
  -- the block: from this block, or from an earlier one with the same token, which makes the server
  -- drop this one's.
  abbrev pub IsIn : Block F → List (Part F) → Type 0
  IsIn b ps = All (λ r. HasPart b (partition r) ps) b.rows

-- What the documentation of clickhouse-go and ClickHouse promises of a table with a deduplication
-- window: a batch collects copies of the rows that are appended to it; the server takes the rows of
-- a batch for one partition as a whole or not at all; if a send reports no error, then each of these
-- parts is taken, or is dropped since a part with its token was taken before. Whatever the result,
-- it may have taken some of the parts. `taken` are the parts that the server has ever taken,
-- `collected` is what a batch holds.
module _ {F B W : Type 0} (ch : ClickHouse F B W) (partition : Slots F → GoString)
    (taken : W → List (Part F)) (collected : B → Block F) where
  pub record IsClickHouse : Type 0 where
    pub prepare_keeps : (t q : GoString) (s : W) → taken (ch.prepare_batch t q s).0 ≡ taken s
    pub prepare_empty :
        (t q : GoString) (s : W) (b : B)
        → (ch.prepare_batch t q s).1 ≡ inr b
        → collected b ≡ record { token = t; query = q; rows = [] }
    pub append_adds :
        (vals : Slots F) (b : B)
        → (ch.append vals b).1 ≡ none
        → collected (ch.append vals b).0
          ≡ record (collected b) { rows = (collected b).rows ++ vals ∷ [] }
    pub send_grows :
        (b : B) (s : W) → Grows partition (collected b) (taken s) (taken (ch.send b s).0)
    pub send_done :
        (b : B) (s : W)
        → (ch.send b s).1 ≡ none
        → IsIn partition (collected b) (taken (ch.send b s).0)

-- A mapper that fills its slots: what it leaves depends on the row alone.
abbrev pub Fills : {F Row : Type 0} → ℕ → (Row → Assignments F) → (Row → Slots F) → Type 0
Fills {F} {Row} n mapper image =
    (r : Row) (dst : Slots F)
    → length dst ≡ n
    → (map_row (mapper r) dst ≡ some (image r)) × (length (image r) ≡ n)

pub nothing-Grows :
    {F : Type 0} (partition : Slots F → GoString) (b : Block F) (ps qs : List (Part F))
    → qs ≡ ps
    → Grows partition b ps qs
nothing-Grows partition b ps qs e = record {
  new = [];
  grown = e ∙ sym (append-nil ps);
  parts = tt;
  once = tt;
}

-- The specification: an insert adds whole parts of one block, which holds the images of all rows.
module _ {F B W Row : Type 0} (ch : ClickHouse F B W) (partition : Slots F → GoString)
    (taken : W → List (Part F)) (collected : B → Block F) (w : ClickHouseWriter F Row)
    (image : Row → Slots F) where
  length-make_slots : (n : ℕ) → length (make_slots {F = F} n) ≡ n
  unfolding make_slots
  length-make_slots zero = refl
  length-make_slots (suc n) = ap suc (length-make_slots n)

  -- the block of an insert
  abbrev pub block_of : GoString → List Row → Block F
  block_of token rows = record { token = token; query = w.query; rows = map image rows }

  -- The loop adds the image of every row to the batch, or an append fails.
  append_rows-cases :
      (rs : List Row) (vals : Slots F) (b : B)
      → IsClickHouse ch partition taken collected
      → Fills w.col_count w.row_mapper image
      → length vals ≡ w.col_count
      → ((b' : B) × (append_rows ch w rs vals b ≡ filled b')
          × (collected b' ≡ record (collected b) { rows = (collected b).rows ++ map image rs }))
        ⊎ ((e : GoString) × (append_rows ch w rs vals b ≡ unfilled (append_failed e)))
  unfolding append_rows
  append_rows-cases [] vals b c f h =
      inl
        (b, refl, ap (λ x. record (collected b) { rows = x }) (sym (append-nil (collected b).rows)))
  append_rows-cases (r ∷ rs) vals b c f h =
      let m = f r vals h in
      let b1 = (ch.append (image r) b).0 in
      elim (Option-cases (ch.append (image r) b).1) [
        | inl ok ↦
            rw (append_rows, m.0, ok)
              (elim (append_rows-cases rs (image r) b1 c f m.1) [
                | inl (b', e, k) ↦ inl (
                  b',
                  e,
                  k
                      ∙ ap {B = Block F}
                          (λ (x : Block F). record x { rows = x.rows ++ map image rs })
                          (c.append_adds (image r) b ok)
                      ∙ ap (λ x. record (collected b) { rows = x })
                          (append_assoc (collected b).rows (image r ∷ []) (map image rs)),
                )
                | inr x ↦ inr x
              ])
        | inr (e, bad) ↦ rw (append_rows, m.0, bad) (inr (e, refl))
      ]

  -- What an insert of rows under a token comes to.
  abbrev pub Inserts : GoString → List Row → W → W × Inserted → Type 0
  Inserts token rs s out =
      Grows partition (block_of token rs) (taken s) (taken out.0)
      × (((out.1 ≡ inserted) × IsIn partition (block_of token rs) (taken out.0))
          ⊎ ((out.1 ≢ inserted) × (out.1 ≢ mapper_panicked)))

  -- The writer refines the insert of one block into a table with partitions and a deduplication
  -- window. For a server that keeps its promises and a mapper whose slots depend on the row alone:
  -- whatever an insert of rows reports, what the server has taken more are whole parts of one block
  -- under the token and the query of the table, with the image of each row in order, and none twice;
  -- if it reports no error, then for the partition of each of these images a part under the token is
  -- taken, by this insert or by an earlier one. The slots of one row never show in another, and no
  -- mapper panics.
  pub insert_rows_refines :
      (token : GoString) (rs : List Row) (s : W)
      → IsClickHouse ch partition taken collected
      → Fills w.col_count w.row_mapper image
      → rs ≢ []
      → Inserts token rs s (insert_rows ch w token rs s)
  unfolding insert_rows
  insert_rows_refines token [] s c f ne = absurd (ne refl)
  insert_rows_refines token (r ∷ rs) s c f ne =
      let s1 = (ch.prepare_batch token w.query s).0 in
      let kept : taken s1 ≡ taken s = c.prepare_keeps token w.query s in
      let nothing = nothing-Grows partition (block_of token (r ∷ rs)) (taken s) (taken s1) kept in
      elim (Sum-cases (ch.prepare_batch token w.query s).1) [
        | inl (e, bad) ↦ rw (insert_rows, bad) (nothing, inr ((λ p. cc), λ p. cc))
        | inr (b, ok) ↦
            elim (append_rows-cases (r ∷ rs) (make_slots w.col_count) b c f
              (length-make_slots w.col_count)) [
                | inr (e, bad) ↦ rw (insert_rows, ok, bad) (nothing, inr ((λ p. cc), λ p. cc))
                | inl (b', good, k) ↦
                    (let block : collected b' ≡ block_of token (r ∷ rs) =
                        k
                        ∙ ap {B = Block F}
                            (λ (x : Block F). record x { rows = x.rows ++ map image (r ∷ rs) })
                            (c.prepare_empty token w.query s b ok) in
                      let grows : Grows partition (block_of token (r ∷ rs)) (taken s)
                          (taken (ch.send b' s1).0) =
                        subst (λ x. Grows partition x (taken s) (taken (ch.send b' s1).0)) block
                          (subst (λ x. Grows partition (collected b') x (taken (ch.send b' s1).0))
                            kept (c.send_grows b' s1)) in
                      elim (Option-cases (ch.send b' s1).1) [
                        | inl sent ↦
                            let done : ((ch.send b' s1).0, inserted)
                                ≡ insert_rows ch w token (r ∷ rs) s =
                              rw (insert_rows, ok, good, sent) refl in
                            subst (Inserts token (r ∷ rs) s) done (
                              grows,
                              inl (
                                refl,
                                subst (λ x. IsIn partition x (taken (ch.send b' s1).0)) block
                                    (c.send_done b' s1 sent),
                              ),
                            )
                        | inr (e, bad) ↦
                            rw (insert_rows, ok, good, bad) (grows, inr ((λ p. cc), λ p. cc))
                      ])
              ]
      ]
