-- ===== src/Metrics.antt =====
-- internal/ingestion/metrics: from OTLP metric requests to rows and series (mapper.go,
-- normalize.go).
pub mod Normalize
pub mod Row
pub mod Mapper
use ingest.Prelude.{
  Bool, GoString, List, List-cases, Option, [], ap, arith, if◌then◌else◌, inl, inr, leb, length,
  length-append, lit, nat_beq, nat_key, refl, suc, text_key, zero, ℕ, ◌++◌, ◌+◌, ◌^◌, ◌∷◌, ◌≡◌, ◌⊎◌,
}
use ingest.Prelude.Int.{neg_part, negsuc, pos, pos_part, sub_ℕ, ℤ}
use ingest.GoFloat.{GoFloat}
use ingest.Infra.Otlp.{KeyValue}

-- the value of a `NumberDataPoint`
pub data NumberValue (F : Type 0) : Type 0 where
  as_double : F → NumberValue F
  as_int : ℤ → NumberValue F
  no_value : NumberValue F

pub record NumberPoint (F : Type 0) : Type 0 where
  pub time_unix_nano : ℕ
  pub attributes : List (KeyValue F)
  pub value : NumberValue F

pub record HistogramPoint (F : Type 0) : Type 0 where
  pub time_unix_nano : ℕ
  pub attributes : List (KeyValue F)
  pub sum : Option F
  pub count : ℕ
  pub explicit_bounds : List F
  pub bucket_counts : List ℕ

-- `ExponentialHistogramDataPoint`; a nil `Positive` has offset 0 and no counts.
pub record ExpHistogramPoint (F : Type 0) : Type 0 where
  pub time_unix_nano : ℕ
  pub attributes : List (KeyValue F)
  pub sum : Option F
  pub count : ℕ
  pub scale : ℤ
  pub zero_count : ℕ
  pub offset : ℤ
  pub bucket_counts : List ℕ

-- `SummaryDataPoint`; a quantile and its value
pub record SummaryPoint (F : Type 0) : Type 0 where
  pub time_unix_nano : ℕ
  pub attributes : List (KeyValue F)
  pub sum : F
  pub count : ℕ
  pub quantile_values : List (F × F)

-- the oneof `Data` of a metric; a temporality is the number of the enumeration
pub data MetricData (F : Type 0) : Type 0 where
  gauge : List (NumberPoint F) → MetricData F
  sum_data : ℤ → Bool → List (NumberPoint F) → MetricData F
  histogram : ℤ → List (HistogramPoint F) → MetricData F
  exponential_histogram : ℤ → List (ExpHistogramPoint F) → MetricData F
  summary : List (SummaryPoint F) → MetricData F
  unsupported : MetricData F

pub record Metric (F : Type 0) : Type 0 where
  pub name : GoString
  pub unit : GoString
  pub description : GoString
  pub data_ : MetricData F

-- `temporalityString`
unfoldable pub temporality_string : ℤ → GoString
temporality_string (pos n) =
    if nat_beq n 1 then lit "Delta" else if nat_beq n 2 then lit "Cumulative" else lit "Unspecified"
temporality_string (negsuc n) = lit "Unspecified"

-- `int(offset) + n`
unfoldable pub shift : ℤ → ℕ → ℤ
shift z n = sub_ℕ (pos_part z + n) (neg_part z)

-- `-n` of an `int32`
unfoldable pub negate_int32 : ℤ → ℤ
negate_int32 z = if leb (2 ^ 31) (neg_part z) then z else sub_ℕ (neg_part z) (pos_part z)

-- `sum += n` over a slice, as a mathematical sum
abbrev pub sum_counts : List ℕ → ℕ
sum_counts [] = 0
sum_counts (n ∷ ns) = n + sum_counts ns

module _ (G : GoFloat) where
  open G use {Float}

  -- `numberValue`
  unfoldable pub number_value : NumberPoint Float → Float
  number_value dp = elim dp.value [ as_double x ↦ x | as_int n ↦ G.of_int n | no_value ↦ G.zero ]

  -- the loop of `expBucketsToExplicit` from the `i`-th count on
  unfoldable pub exp_bounds : Float → ℤ → ℕ → List ℕ → List Float
  unfolding shift
  exp_bounds base offset i [] = []
  exp_bounds base offset i (c ∷ cs) =
      G.pow base (G.of_int (shift offset (i + 1))) ∷ exp_bounds base offset (i + 1) cs

  -- `expBucketsToExplicit`: the bounds and the counts
  unfoldable pub exp_buckets_to_explicit : ExpHistogramPoint Float → List Float × List ℕ
  unfolding exp_bounds negate_int32
  exp_buckets_to_explicit dp = elim dp.bucket_counts [
    | [] ↦ ([], [])
    | c ∷ cs ↦
        let two = G.of_int (pos 2) in
        let base = G.pow two (G.pow two (G.of_int (negate_int32 dp.scale))) in
        (
          G.pow base (G.of_int dp.offset) ∷ exp_bounds base dp.offset 0 (c ∷ cs),
          (dp.zero_count ∷ c ∷ cs) ++ 0 ∷ [],
        )
  ]

  length-exp_bounds :
      (base : Float) (offset : ℤ) (i : ℕ) (cs : List ℕ)
      → length (exp_bounds base offset i cs) ≡ length cs
  unfolding exp_bounds
  length-exp_bounds base offset i [] = refl
  length-exp_bounds base offset i (c ∷ cs) = ap suc (length-exp_bounds base offset (i + 1) cs)

  sum_counts-append : (ms ns : List ℕ) → sum_counts (ms ++ ns) ≡ sum_counts ms + sum_counts ns
  sum_counts-append [] ns = omega arith
  sum_counts-append (m ∷ ms) ns = omega (arith, sum_counts-append ms ns)

  -- The explicit buckets of an exponential histogram with counts have one count more than bounds,
  -- and keep the number of observations: the zero bucket's and those of the counts. Without
  -- counts there are no buckets.
  pub exp_buckets_to_explicit_lem :
      (dp : ExpHistogramPoint Float)
      → let r = exp_buckets_to_explicit dp in
        (dp.bucket_counts ≡ []) × (r ≡ ([], []))
        ⊎ (length r.1 ≡ length r.0 + 1)
          × (length r.0 ≡ length dp.bucket_counts + 1)
          × (sum_counts r.1 ≡ dp.zero_count + sum_counts dp.bucket_counts)
  unfolding exp_buckets_to_explicit
  exp_buckets_to_explicit_lem dp = elim (List-cases dp.bucket_counts) [
    | inl e ↦ inl (e, rw (exp_buckets_to_explicit, e))
    | inr (c, cs, e) ↦
        let two = G.of_int (pos 2) in
        let base = G.pow two (G.pow two (G.of_int (negate_int32 dp.scale))) in
        let bounds = length-exp_bounds base dp.offset 0 (c ∷ cs) in
        rw (exp_buckets_to_explicit, e)
          (inr (
            omega (arith, bounds, length-append cs (0 ∷ [])),
            omega (arith, bounds),
            omega (arith, sum_counts-append cs (0 ∷ [])),
          ))
  ]
