-- ===== src/Stats/Tally.antt =====
-- Counting the rows of one key: in a list of rows, and in the map of the recorder.
use ingest.Prelude.{
  Bool-cases, Key-false, Key-sound, List, Option, Option-cases, [], ap, arith, elem, false,
  if◌then◌else◌, inl, inr, nat_key, none, refl, some, sym, text_key, ℕ, ◌%◌, ◌++◌, ◌+◌, ◌==◌, ◌^◌,
  ◌∙◌, ◌∷◌, ◌≡◌,
}
use ingest.GoMap.Laws.{elem-keys-insert, lookup-insert}
use ingest.GoMap.{GoMap, insert, keys, lookup}
use ingest.Stats.{
  StatKey, StatRow, add_uint64, merge_row, record_row, record_rows, stat_key, stat_key_order,
  values,
}

-- A count of a row: its records or its bytes; what merging two rows adds up.
pub record Count : Type 0 where
  pub of : StatRow → ℕ
  pub adds : (cur row : StatRow) → of (merge_row cur row) ≡ add_uint64 (of cur) (of row)

pub record_counts : Count
unfolding merge_row
record_counts = record { of = λ r. r.record_count; adds = λ c r. refl }

pub byte_counts : Count
unfolding merge_row
byte_counts = record { of = λ r. r.byte_count; adds = λ c r. refl }

-- The map keeps each row under its own key, once.
abbrev pub IsLedger : GoMap StatKey StatRow → Type 0
IsLedger [] = Unit
IsLedger ((j, r) ∷ m) = (stat_key r ≡ j) × (elem j (keys m) ≡ false) × IsLedger m

insert-IsLedger :
    (j : StatKey) (r : StatRow) (m : GoMap StatKey StatRow)
    → stat_key r ≡ j
    → IsLedger m
    → IsLedger (insert j r m)
unfolding insert
insert-IsLedger j r [] e l = (e, refl, tt)
insert-IsLedger j r ((i, w) ∷ m) e l = elim (Bool-cases (i == j)) [
  | inl h ↦ rw h (e ∙ sym (Key-sound i j h), l.1, l.2)
  | inr h ↦ rw h (
    l.0,
    ground (arith, elem-keys-insert j i r m, l.1, Key-false i j h, Key-sound j i),
    insert-IsLedger j r m e l.2,
  )
]

module _ (c : Count) (k : StatKey) where
  abbrev pub tally : List StatRow → ℕ
  tally [] = 0
  tally (r ∷ rs) = (if stat_key r == k then c.of r else 0) + tally rs

  abbrev pub count_of : Option StatRow → ℕ
  count_of none = 0
  count_of (some r) = c.of r

  pub tally-append : (xs ys : List StatRow) → tally (xs ++ ys) ≡ tally xs + tally ys
  tally-append [] ys = omega arith
  tally-append (x ∷ xs) ys = omega (arith, tally-append xs ys)

  tally_absent :
      (m : GoMap StatKey StatRow) → IsLedger m → elem k (keys m) ≡ false → tally (values m) ≡ 0
  tally_absent [] l h = refl
  tally_absent ((j, r) ∷ m) l h = ground (arith, ap (λ x. x == k) l.0, tally_absent m l.2)

  pub tally-values :
      (m : GoMap StatKey StatRow) → IsLedger m → tally (values m) ≡ count_of (lookup k m)
  unfolding lookup
  tally-values [] l = refl
  tally-values ((j, r) ∷ m) l = elim (Bool-cases (j == k)) [
    | inl h ↦
        let absent = tally_absent m l.2 (ap (λ x. elem x (keys m)) (sym (Key-sound j k h)) ∙ l.1) in
        ground (arith, ap (λ x. x == k) l.0, absent)
    | inr h ↦ ground (arith, ap (λ x. x == k) l.0, tally-values m l.2)
  ]

ledger_own :
    (k : StatKey) (r : StatRow) (m : GoMap StatKey StatRow)
    → IsLedger m
    → lookup k m ≡ some r
    → stat_key r ≡ k
unfolding lookup
ledger_own k r [] l h = cc
ledger_own k r ((j, w) ∷ m) l h = elim (Bool-cases (j == k)) [
  | inl e ↦ let same : w ≡ r = ground (arith) in ap stat_key (sym same) ∙ l.0 ∙ Key-sound j k e
  | inr e ↦ ledger_own k r m l.2 (ground (arith))
]

merge_key : (cur row : StatRow) → stat_key (merge_row cur row) ≡ stat_key cur
unfolding stat_key merge_row
merge_key cur row = refl

pub record_row-IsLedger :
    (m : GoMap StatKey StatRow) (row : Option StatRow) → IsLedger m → IsLedger (record_row m row)
unfolding record_row
record_row-IsLedger m none l = l
record_row-IsLedger m (some row) l = elim (Option-cases (lookup (stat_key row) m)) [
  | inl e ↦ rw (record_row, e) (insert-IsLedger (stat_key row) row m refl l)
  | inr (cur, e) ↦
      rw (record_row, e)
        (insert-IsLedger (stat_key row) (merge_row cur row) m
          (merge_key cur row ∙ ledger_own (stat_key row) cur m l e) l)
]

-- the rows of a call of `Record`, without the nil ones
abbrev pub given : List (Option StatRow) → List StatRow
given [] = []
given (none ∷ rs) = given rs
given (some r ∷ rs) = r ∷ given rs

pub record_rows-IsLedger :
    (m : GoMap StatKey StatRow) (rows : List (Option StatRow))
    → IsLedger m
    → IsLedger (record_rows m rows)
unfolding record_rows
record_rows-IsLedger m [] l = l
record_rows-IsLedger m (r ∷ rs) l =
    record_rows-IsLedger (record_row m r) rs (record_row-IsLedger m r l)

module _ (c : Count) (k : StatKey) where
  record_row-count :
      (m : GoMap StatKey StatRow) (row : StatRow)
      → count_of c k (lookup k (record_row m (some row))) % 2 ^ 64
        ≡ (count_of c k (lookup k m) + (if stat_key row == k then c.of row else 0)) % 2 ^ 64
  unfolding record_row
  record_row-count m row = elim (Option-cases (lookup (stat_key row) m)) [
    | inl e ↦
        rw (record_row, e, lookup-insert (stat_key row) k row m)
          (elim (Bool-cases (stat_key row == k)) [
            | inl h ↦ ground (arith, ap (λ x. lookup x m) (sym (Key-sound (stat_key row) k h)) ∙ e)
            | inr h ↦ ground arith
          ])
    | inr (cur, e) ↦
        rw (record_row, e, lookup-insert (stat_key row) k (merge_row cur row) m)
          (elim (Bool-cases (stat_key row == k)) [
            | inl h ↦ ground (
              arith,
              ap (λ x. lookup x m) (sym (Key-sound (stat_key row) k h)) ∙ e,
              c.adds cur row,
            )
            | inr h ↦ ground arith
          ])
  ]

  -- What the map counts for a key grows by what the rows count for it, in 64 bits.
  pub record_rows-count :
      (m : GoMap StatKey StatRow) (rows : List (Option StatRow))
      → count_of c k (lookup k (record_rows m rows)) % 2 ^ 64
        ≡ (count_of c k (lookup k m) + tally c k (given rows)) % 2 ^ 64
  unfolding record_rows
  record_rows-count m [] = ap (λ n. n % 2 ^ 64) (omega arith)
  record_rows-count m (none ∷ rs) = record_rows-count (record_row m none) rs
  record_rows-count m (some r ∷ rs) =
      omega (arith, record_rows-count (record_row m (some r)) rs, record_row-count m r)
