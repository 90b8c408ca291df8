-- ===== src/Stats.antt =====
-- internal/ingestion/ingestionstats: usage rows (usage.go) and the hourly recorder (recorder.go).
pub mod Usage
pub mod Tally
pub mod Conserved
use ingest.Prelude.{
  Bool, GoString, Key, List, Option, [], false, if◌then◌else◌, map, nat_beq, nat_key, none, some,
  text_key, true, ℕ, ◌%◌, ◌*◌, ◌++◌, ◌+◌, ◌-◌, ◌/◌, ◌^◌, ◌∷◌,
}
use ingest.Prelude.Pairs.{pair_key}
use ingest.GoMap.{GoMap, insert, lookup, size}
use ingest.Signals.{ResourceUsage}

-- `schema.StatRow`; `fingerprint` is never set
pub record StatRow : Type 0 where
  pub tenant_id : ℕ
  pub fingerprint : ℕ
  pub bucket_unix : ℕ
  pub signal : GoString
  pub service : GoString
  pub environment : GoString
  pub record_count : ℕ
  pub byte_count : ℕ

-- `statKey`
abbrev pub StatKey : Type 0
StatKey = ℕ × (ℕ × (GoString × (GoString × GoString)))

instance abbrev pub stat_key_order : Key StatKey
stat_key_order =
    pair_key nat_key (pair_key nat_key (pair_key text_key (pair_key text_key text_key)))

unfoldable pub stat_key : StatRow → StatKey
stat_key r = (r.tenant_id, (r.bucket_unix, (r.signal, (r.service, r.environment))))

-- the sum of two `uint64` values
abbrev pub add_uint64 : ℕ → ℕ → ℕ
add_uint64 a b = (a + b) % 2 ^ 64

-- the first loop of `usageRows`
unfoldable pub total_uint64 : List ResourceUsage → ℕ → ℕ
total_uint64 [] total = total
total_uint64 (u ∷ us) total = total_uint64 us (add_uint64 total u.records)

-- `newRow`, in the hour `bucket`
unfoldable pub new_row : ℕ → ℕ → GoString → ResourceUsage → ℕ → StatRow
new_row bucket tenant_id signal u bytes = record {
  tenant_id = tenant_id;
  fingerprint = 0;
  bucket_unix = bucket;
  signal = signal;
  service = u.service;
  environment = u.environment;
  record_count = u.records;
  byte_count = bytes;
}

-- `time.Now().UTC().Truncate(time.Hour).Unix()`, of the seconds since the epoch
unfoldable pub hour_of : ℕ → ℕ
hour_of now = now / 3600 * 3600

-- the second loop of `usageRows`, with what remains of the bytes; `bucket` stands for the hour
-- at which the request is counted
unfoldable pub apportion : ℕ → ℕ → GoString → ℕ → ℕ → List ResourceUsage → ℕ → List StatRow
unfolding new_row
apportion bucket tenant_id signal total_bytes all_records [] remaining = []
apportion bucket tenant_id signal total_bytes all_records (u ∷ []) remaining =
    new_row bucket tenant_id signal u remaining ∷ []
apportion bucket tenant_id signal total_bytes all_records (u ∷ v ∷ us) remaining =
    let bytes = total_bytes * u.records % 2 ^ 64 / all_records in
    new_row bucket tenant_id signal u bytes
    ∷ apportion bucket tenant_id signal total_bytes all_records (v ∷ us)
        ((remaining + 2 ^ 64 - bytes) % 2 ^ 64)

-- `usageRows`
unfoldable pub usage_rows : ℕ → ℕ → GoString → List ResourceUsage → ℕ → List StatRow
unfolding total_uint64 apportion hour_of
usage_rows now tenant_id signal usage total_bytes =
    let all_records = total_uint64 usage 0 in
    if nat_beq all_records 0
    then []
    else apportion (hour_of now) tenant_id signal total_bytes all_records usage total_bytes

-- `HourlyRecorder`, its fields that change: the rows, and whether it is closing
pub record HourlyRecorder : Type 0 where
  pub rows : GoMap StatKey StatRow
  pub closing : Bool

unfoldable pub new_hourly_recorder : HourlyRecorder
new_hourly_recorder = record { rows = []; closing = false }

-- the two additions to the row `cur` of the map
unfoldable pub merge_row : StatRow → StatRow → StatRow
merge_row cur row = record cur {
  record_count = add_uint64 cur.record_count row.record_count;
  byte_count = add_uint64 cur.byte_count row.byte_count;
}

-- one round of the loop of `Record`; a nil row is `none`
unfoldable pub record_row : GoMap StatKey StatRow → Option StatRow → GoMap StatKey StatRow
unfolding stat_key merge_row
record_row rows none = rows
record_row rows (some row) = elim (lookup (stat_key row) rows) [
  | some cur ↦ insert (stat_key row) (merge_row cur row) rows
  | none ↦ insert (stat_key row) row rows
]

unfoldable pub record_rows : GoMap StatKey StatRow → List (Option StatRow) → GoMap StatKey StatRow
unfolding record_row
record_rows rows [] = rows
record_rows rows (r ∷ rs) = record_rows (record_row rows r) rs

-- `Record`
unfoldable pub record_stats : HourlyRecorder → List (Option StatRow) → HourlyRecorder
unfolding record_rows
record_stats r rows = if r.closing then r else record r { rows = record_rows r.rows rows }

-- the rows of the map, in the order of iteration
abbrev pub values : GoMap StatKey StatRow → List StatRow
values [] = []
values ((k, r) ∷ m) = r ∷ values m

-- `snapshot`
unfoldable pub snapshot : HourlyRecorder → HourlyRecorder × List StatRow
snapshot r = (record r { rows = [] }, values r.rows)

-- `flush`: what was published, and what was dropped when `Publish` fails
unfoldable pub flush :
    (List StatRow → Bool) → HourlyRecorder → HourlyRecorder × List StatRow × List StatRow
unfolding snapshot
flush publish r =
    let (r', rows) = snapshot r in
    elim rows [
      | [] ↦ (r', [], [])
      | x ∷ xs ↦ if publish (x ∷ xs) then (r', x ∷ xs, []) else (r', [], x ∷ xs)
    ]

-- `Close`, up to the wait; a second call does nothing
unfoldable pub close_recorder : HourlyRecorder → HourlyRecorder
close_recorder r = record r { closing = true }

-- `EmitUsage`: the recorder after the call; `size` is `proto.Size(req)`
unfoldable pub emit_usage :
    ℕ → Option HourlyRecorder → ℕ → GoString → List ResourceUsage → ℕ → Option HourlyRecorder
unfolding usage_rows record_stats
emit_usage now none tenant_id signal usage size = none
emit_usage now (some rec) tenant_id signal usage size =
    elim (usage_rows now (tenant_id % 2 ^ 32) signal usage size) [
      | [] ↦ some rec
      | r ∷ rs ↦ some (record_stats rec (map (λ x. some x) (r ∷ rs)))
    ]

-- what may happen to a recorder: a call of `Record`, a flush of `run` whose `Publish` succeeds or
-- not, and a call of `Close`
pub data StatsEvent : Type 0 where
  recorded : List (Option StatRow) → StatsEvent
  flushed : Bool → StatsEvent
  closed : StatsEvent

-- the recorder with all that it has published and dropped
pub record Books : Type 0 where
  pub recorder : HourlyRecorder
  pub published : List StatRow
  pub dropped : List StatRow

-- The lock makes each event one step.
unfoldable pub step : Books → StatsEvent → Books
unfolding record_stats flush close_recorder
step b (recorded rows) = record b { recorder = record_stats b.recorder rows }
step b (flushed ok) =
    let (r, p, d) = flush (λ rows. ok) b.recorder in
    record { recorder = r; published = b.published ++ p; dropped = b.dropped ++ d }
step b closed = record b { recorder = close_recorder b.recorder }

unfoldable pub run_events : Books → List StatsEvent → Books
unfolding step
run_events b [] = b
run_events b (e ∷ es) = run_events (step b e) es
