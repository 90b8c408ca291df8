-- ===== src/Writer/Stored.antt =====
-- From the producer of internal/ingestion/core to the table: the rows that are published and the rows
-- that are inserted.
use mathlib.Core.Path.{subst}
use ingest.Prelude.{
  GoString, List, Option, [], ap, ap₂, arith, inl, inr, map, nat_key, refl, some, sym, text_key, ℕ,
  ◌++◌, ◌+◌, ◌∙◌, ◌∷◌, ◌≡◌, ◌≢◌, ◌⊎◌,
}
use ingest.Columns.{Slots}
use ingest.Core.{Broker, Dlq, KafkaRecord, Producer, Sinks, publish, published}
use ingest.Core.Publish.{AreRecordsOf, none_left, one_more, publish-published}
use ingest.Core.Token.{dedup_token}
use ingest.Core.Insert.Account.{decodable, undecodable}
use ingest.Core.Insert.Outcome.{IsRefused}
use ingest.Writer.{ClickHouse, ClickHouseWriter}
use ingest.Writer.Atomic.{Block, Fills, Grows, IsClickHouse, IsIn, Part}
use ingest.Writer.Consumer.{handle_batch, handle_batch-Delivered}

-- What is documented of proto: a row that can be marshalled is read back from its encoding.
abbrev pub IsCodec : {Row : Type 0} → (Row → Option GoString) → (GoString → Option Row) → Type 0
IsCodec {Row} marshal unmarshal =
    (r : Row) (v : GoString) → marshal r ≡ some v → unmarshal v ≡ some r

abbrev pub payloads : List KafkaRecord → List GoString
payloads [] = []
payloads (r ∷ rs) = r.value ∷ payloads rs

module _ {Row : Type 0} (marshal : Row → Option GoString) (unmarshal : GoString → Option Row)
    (now : ℕ) (p : Producer Row) (codec : IsCodec marshal unmarshal) where
  -- Records with the payloads of published rows decode to these rows.
  decodable-published :
      (rows : List Row) (records recs : List KafkaRecord)
      → AreRecordsOf marshal now p rows records
      → payloads recs ≡ payloads records
      → (decodable unmarshal recs ≡ rows) × (undecodable unmarshal recs ≡ 0)
  decodable-published _ _ [] none_left e = (refl, refl)
  decodable-published _ _ (x ∷ recs) none_left e = cc
  decodable-published _ _ [] (one_more _ _ _ _ _) e = cc
  decodable-published _ _ (x ∷ recs) (one_more {r} {rows} {rec} {records} topic key value time rest)
        e =
      let known = codec r rec.value (sym value) in
      let same : x.value ≡ rec.value = cc in
      let ih = decodable-published rows records recs rest (cc) in
      let got : unmarshal x.value ≡ some r = ap unmarshal same ∙ known in
      (rw (got, decodable) (ap (◌∷◌ r) ih.0), rw (got, undecodable) ih.1)

append-cancel : {A : Type 0} (xs ys zs : List A) → xs ++ ys ≡ xs ++ zs → ys ≡ zs
append-cancel [] ys zs e = e
append-cancel (x ∷ xs) ys zs e = append-cancel xs ys zs (cc)

module _ {F B W Row : Type 0} (ch : ClickHouse F B W) (partition : Slots F → GoString)
    (taken_parts : W → List (Part F)) (collected : B → Block F) (w : ClickHouseWriter F Row)
    (image : Row → Slots F) (marshal : Row → Option GoString) (unmarshal : GoString → Option Row)
    (broker : Broker) (d : Dlq) (signal : GoString) (now : ℕ) (p : Producer Row) where
  -- What handling the records of published rows leaves behind.
  abbrev pub Stored : List Row → List KafkaRecord → Sinks Row → W → Type 0
  Stored rows recs s server =
      let (s', server') = handle_batch ch w unmarshal broker d signal recs s server in
      let block : Block F = record {
        token = dedup_token signal recs;
        query = w.query;
        rows = map image rows;
      } in
      Grows partition block (taken_parts server) (taken_parts server')
      × (((s' ≡ record s { stored = s.stored ++ (dedup_token signal recs, rows) ∷ [] })
            × IsIn partition block (taken_parts server'))
          ⊎ ((reason : GoString) × IsRefused broker d recs s s' reason))

  -- From a publish to the table. If a publish of rows has reported success, with `records` as what
  -- the log of the broker has grown by, and a batch with the payloads of these records is handled,
  -- for an encoding that reads rows back, a server with partitions and a deduplication window that
  -- keeps its promises, and a mapper whose slots depend on the row alone: the block has the images of
  -- the published rows, in the order in which they were published, under the token of the batch,
  -- and what the server has taken more are whole parts of it, none twice. Either the handler counts
  -- exactly the published rows as stored, none as malformed, and for the partition of each image
  -- the server has a part under the token, from this delivery or an earlier one; or every record
  -- was sent to the dead-letter topic, or is counted as lost.
  pub publish-Stored :
      (rows : List Row) (log records recs : List KafkaRecord) (s : Sinks Row) (server : W)
      → IsCodec marshal unmarshal
      → IsClickHouse ch partition taken_parts collected
      → Fills w.col_count w.row_mapper image
      → rows ≢ []
      → publish marshal broker now p log rows ≡ (log ++ records, published)
      → payloads recs ≡ payloads records
      → Stored rows recs s server
  publish-Stored rows log records recs s server codec c f ne done same =
      let (records', are, grown) =
        publish-published marshal broker now p log rows (ap (λ r. r.1) done) in
      let one : records' ≡ records =
        append-cancel log records' records (sym grown ∙ ap (λ r. r.0) done) in
      let (all, no_more) =
        decodable-published marshal unmarshal now p codec rows records' recs are
          (same ∙ ap payloads (sym one)) in
      let block : List Row → Block F =
        λ x. record { token = dedup_token signal recs; query = w.query; rows = map image x } in
      let none_malformed : s.malformed + undecodable unmarshal recs ≡ s.malformed =
        omega (arith, no_more) in
      let (grows, result) =
        handle_batch-Delivered ch partition taken_parts collected w image unmarshal broker d signal
          recs s server c f (λ e. ne (sym all ∙ e)) in
      let after = taken_parts (handle_batch ch w unmarshal broker d signal recs s server).1 in
      (
        subst (λ x. Grows partition (block x) (taken_parts server) after) all grows,
        elim result [
          | inl (stored, has_all) ↦ inl (
            stored
                ∙ ap₂
                    (λ x n. record s {
                      stored = s.stored ++ (dedup_token signal recs, x) ∷ [];
                      malformed = n;
                    })
                    all none_malformed,
            subst (λ x. IsIn partition (block x) after) all has_all,
          )
          | inr refused ↦ inr refused
        ],
      )
