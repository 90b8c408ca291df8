-- ===== src/Stats/Usage.antt =====
-- How `usageRows` of internal/ingestion/ingestionstats/usage.go shares the bytes of a request.
use native.Mathlib.Nat.{
  div-le_self, div-mul-le_self, mul-add, add-mul, le_of_mul-le-mul_right, mul-le-mul_right,
}
use mathlib.Core.Path.{subst}
use ingest.Prelude.{
  Bool-cases, GoString, List, [], ap, arith, false, inl, inr, leb, nat_beq, nat_key, refl, suc, sym,
  text_key, zero, ℕ, ◌%◌, ◌*◌, ◌+◌, ◌-◌, ◌/◌, ◌<◌, ◌^◌, ◌∙◌, ◌∷◌, ◌≡◌, ◌≢◌, ◌≤◌, ◌⊎◌,
}
use ingest.Signals.{ResourceUsage, total_records}
use ingest.Stats.{StatRow, add_uint64, apportion, hour_of, new_row, total_uint64, usage_rows}

abbrev pub total_bytes_of : List StatRow → ℕ
total_bytes_of [] = 0
total_bytes_of (r ∷ rs) = r.byte_count + total_bytes_of rs

abbrev pub records_of : List StatRow → ℕ
records_of [] = 0
records_of (r ∷ rs) = r.record_count + records_of rs

carry :
    (b t r : ℕ)
    → b < 2 ^ 64
    → r < 2 ^ 64
    → t % 2 ^ 64 ≡ (r + 2 ^ 64 - b) % 2 ^ 64
    → (b + t) % 2 ^ 64 ≡ r
carry b t r hb hr h = omega arith

apportion_total :
    (bucket tenant_id : ℕ) (signal : GoString) (total_bytes all_records : ℕ) (u : ResourceUsage)
    (us : List ResourceUsage) (remaining : ℕ)
    → remaining < 2 ^ 64
    → total_bytes_of (apportion bucket tenant_id signal total_bytes all_records (u ∷ us) remaining)
        % 2 ^ 64
      ≡ remaining
unfolding apportion new_row
apportion_total bucket tenant_id signal total_bytes all_records u [] remaining h = omega arith
apportion_total bucket tenant_id signal total_bytes all_records u (v ∷ us) remaining h =
    let bytes = total_bytes * u.records % 2 ^ 64 / all_records in
    let rest =
      apportion_total bucket tenant_id signal total_bytes all_records v us
        ((remaining + 2 ^ 64 - bytes) % 2 ^ 64) (omega arith) in
    let small : bytes < 2 ^ 64 =
      omega (arith, div-le_self (total_bytes * u.records % 2 ^ 64) all_records) in
    carry bytes _ remaining small h rest

-- the share of a resource, when nothing overflows
share_lem :
    (w n a b rest remaining : ℕ)
    → 0 < n
    → b * n ≤ w * a
    → w * (a + rest) ≤ remaining * n
    → (b ≤ remaining) × (w * rest ≤ (remaining - b) * n)
share_lem w n a b rest remaining pos hb h =
    let d = mul-add w a rest in
    let under : b * n ≤ remaining * n = omega arith in
    let fits : b ≤ remaining = le_of_mul-le-mul_right under pos in
    let whole : remaining - b + b ≡ remaining = omega arith in
    let split : remaining * n ≡ (remaining - b) * n + b * n =
      sym (ap (λ x. x * n) whole) ∙ add-mul (remaining - b) b n in
    (fits, omega arith)

apportion_exact :
    (bucket tenant_id : ℕ) (signal : GoString) (w n : ℕ) (u : ResourceUsage)
    (us : List ResourceUsage) (remaining : ℕ)
    → 0 < n
    → w * n < 2 ^ 64
    → remaining < 2 ^ 64
    → w * total_records (u ∷ us) ≤ w * n
    → w * total_records (u ∷ us) ≤ remaining * n
    → total_bytes_of (apportion bucket tenant_id signal w n (u ∷ us) remaining) ≡ remaining
unfolding apportion new_row
apportion_exact bucket tenant_id signal w n u [] remaining pos hw hr few h = omega arith
apportion_exact bucket tenant_id signal w n u (v ∷ us) remaining pos hw hr few h =
    let d = mul-add w u.records (total_records (v ∷ us)) in
    let part : w * u.records ≤ w * n = omega arith in
    let plain : w * u.records % 2 ^ 64 ≡ w * u.records = omega arith in
    let b = w * u.records % 2 ^ 64 / n in
    let floor : b * n ≤ w * u.records =
      subst (λ x. b * n ≤ x) plain (div-mul-le_self (w * u.records % 2 ^ 64) n) in
    let (fits, rest) = share_lem w n u.records b (total_records (v ∷ us)) remaining pos floor h in
    let left : (remaining + 2 ^ 64 - b) % 2 ^ 64 ≡ remaining - b = omega arith in
    let inner =
      apportion_exact bucket tenant_id signal w n v us (remaining - b) pos hw (omega arith)
        (omega arith) rest in
    let same =
      ap (λ r. total_bytes_of (apportion bucket tenant_id signal w n (v ∷ us) r)) left ∙ inner in
    omega (arith, same, fits)

total_uint64_lem :
    (us : List ResourceUsage) (t : ℕ) → total_uint64 us t % 2 ^ 64 ≡ (t + total_records us) % 2 ^ 64
unfolding total_uint64
total_uint64_lem [] t = omega arith
total_uint64_lem (u ∷ us) t = omega (arith, total_uint64_lem us (add_uint64 t u.records))

total_uint64-small : (us : List ResourceUsage) (t : ℕ) → t < 2 ^ 64 → total_uint64 us t < 2 ^ 64
unfolding total_uint64
total_uint64-small [] t h = h
total_uint64-small (u ∷ us) t h = total_uint64-small us (add_uint64 t u.records) (omega arith)

same_product : (t n m : ℕ) → t * n < 2 ^ 64 → m ≡ n % 2 ^ 64 → t * m ≡ t * n
same_product zero n m h e = omega arith
same_product (suc t) n m h e =
    let one_le : 1 ≤ suc t = omega arith in
    let bound : 1 * n ≤ suc t * n = mul-le-mul_right n one_le in
    let same : m ≡ n = omega arith in ap (λ x. suc t * x) same

-- The rows of a request with records attribute its bytes: their sum is the size of the request,
-- in the arithmetic of 64 bits always, and as numbers when the size times the number of records
-- is below 2 ^ 64. (The size is a `uint64`, and the usage counts at least one record in 64 bits.)
pub usage_rows-bytes :
    (now tenant_id : ℕ) (signal : GoString) (usage : List ResourceUsage) (total_bytes : ℕ)
    → total_bytes < 2 ^ 64
    → total_records usage % 2 ^ 64 ≢ 0
    → let rows = usage_rows now tenant_id signal usage total_bytes in
      (total_bytes_of rows % 2 ^ 64 ≡ total_bytes)
      × ((2 ^ 64 ≤ total_bytes * total_records usage) ⊎ (total_bytes_of rows ≡ total_bytes))
unfolding usage_rows
usage_rows-bytes now tenant_id signal [] total_bytes h nonzero = absurd (nonzero refl)
usage_rows-bytes now tenant_id signal (u ∷ us) total_bytes h nonzero =
    let sum = total_uint64_lem (u ∷ us) 0 in
    let small = total_uint64-small (u ∷ us) 0 (omega arith) in
    let exact : total_uint64 (u ∷ us) 0 ≡ total_records (u ∷ us) % 2 ^ 64 = omega arith in
    let counted : nat_beq (total_uint64 (u ∷ us) 0) 0 ≡ false =
      elim (Bool-cases (nat_beq (total_uint64 (u ∷ us) 0) 0)) [
        | inl e ↦ absurd (nonzero (ground arith))
        | inr e ↦ e
      ] in
    rw (usage_rows, counted)
      (
        apportion_total (hour_of now) tenant_id signal total_bytes (total_uint64 (u ∷ us) 0) u us
            total_bytes h,
        exactly exact small counted,
      )
  where
    exactly :
        (total_uint64 (u ∷ us) 0 ≡ total_records (u ∷ us) % 2 ^ 64)
        → (total_uint64 (u ∷ us) 0 < 2 ^ 64)
        → (nat_beq (total_uint64 (u ∷ us) 0) 0 ≡ false)
        → (2 ^ 64 ≤ total_bytes * total_records (u ∷ us))
          ⊎ (total_bytes_of (
                apportion
                  (hour_of now)
                  tenant_id
                  signal
                  total_bytes
                  (total_uint64 (u ∷ us) 0)
                  (u ∷ us)
                  total_bytes)
              ≡ total_bytes)
    exactly exact small counted =
        elim (Bool-cases (leb (2 ^ 64) (total_bytes * total_records (u ∷ us)))) [
          | inl e ↦ inl (ground arith)
          | inr e ↦
              let under : total_bytes * total_records (u ∷ us) < 2 ^ 64 = ground arith in
              let pos : 0 < total_uint64 (u ∷ us) 0 = ground arith in
              let same : total_bytes * total_uint64 (u ∷ us) 0
                  ≡ total_bytes * total_records (u ∷ us) =
                same_product total_bytes (total_records (u ∷ us)) (total_uint64 (u ∷ us) 0) under
                  exact in
              inr (
                apportion_exact (hour_of now) tenant_id signal total_bytes (total_uint64 (u ∷ us) 0)
                  u us total_bytes pos (omega arith) h (omega arith) (omega arith))
        ]
