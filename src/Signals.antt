-- ===== src/Signals.antt =====
-- What the mappers of the signals share: a resource of an OTLP request, the usage that a mapper
-- reports (ingestionstats/usage.go), and small string functions of Go's library.
pub mod Maps
use ingest.Prelude.{
  Bool, Bool-cases, GoString, List, [], arith, false, if◌then◌else◌, inl, inr, ltb, nat_beq,
  nat_key, text_key, true, ℕ, ◌&&◌, ◌++◌, ◌+◌, ◌<◌, ◌∷◌, ◌≡◌,
}
use ingest.GoMap.{GoMap, insert}
use ingest.Infra.Otlp.{StringMap}

-- `ResourceUsage`
pub record ResourceUsage : Type 0 where
  pub service : GoString
  pub environment : GoString
  pub records : ℕ

-- `k in m` for a map that is only asked for its keys
abbrev pub has_prefix : GoString → GoString → Bool
has_prefix s [] = true
has_prefix [] (p ∷ ps) = false
has_prefix (c ∷ s) (p ∷ ps) = nat_beq c p && has_prefix s ps

-- the entries whose key passes a test, as a loop over a map copies them
unfoldable pub filter_keys : {V : Type 0} → (GoString → Bool) → GoMap GoString V → GoMap GoString V
filter_keys p [] = []
filter_keys p ((k, v) ∷ m) = if p k then (k, v) ∷ filter_keys p m else filter_keys p m

-- `maps.Copy(dst, src)`, also as a loop with a test on the keys
unfoldable pub copy_keys : (GoString → Bool) → StringMap → StringMap → StringMap
copy_keys p dst [] = dst
copy_keys p dst ((k, v) ∷ m) = copy_keys p (if p k then insert k v dst else dst) m

-- the list after a mapper's loop, when `n` rows came of one resource: `if n > 0 { append }`
unfoldable pub report : GoString → GoString → ℕ → List ResourceUsage → List ResourceUsage
report service environment n usage =
    if ltb 0 n
    then usage ++ record { service = service; environment = environment; records = n } ∷ []
    else usage

abbrev pub is_empty : GoString → Bool
is_empty [] = true
is_empty (c ∷ s) = false

-- `cmp.Or` on strings
unfoldable pub or_else : GoString → GoString → GoString
or_else [] y = y
or_else (c ∷ x) y = c ∷ x

-- how many records a usage counts
abbrev pub total_records : List ResourceUsage → ℕ
total_records [] = 0
total_records (u ∷ us) = u.records + total_records us

-- Every entry counts a record.
abbrev pub AreUsed : List ResourceUsage → Type 0
AreUsed [] = Unit
AreUsed (u ∷ us) = (0 < u.records) × AreUsed us

pub total_records-report :
    (service environment : GoString) (n : ℕ) (usage : List ResourceUsage)
    → AreUsed usage
    → (total_records (report service environment n usage) ≡ total_records usage + n)
      × AreUsed (report service environment n usage)
unfolding report
total_records-report service environment n usage h = elim (Bool-cases (ltb 0 n)) [
  | inl e ↦ rw e (total-snoc usage, used-snoc (ground arith) usage h)
  | inr e ↦ rw e (ground arith, h)
]
  where
    one : ResourceUsage
    one = record { service = service; environment = environment; records = n }

    total-snoc : (us : List ResourceUsage) → total_records (us ++ one ∷ []) ≡ total_records us + n
    total-snoc [] = omega arith
    total-snoc (u ∷ us) = omega (arith, total-snoc us)

    used-snoc : (0 < n) → (us : List ResourceUsage) → AreUsed us → AreUsed (us ++ one ∷ [])
    used-snoc p [] h = (p, tt)
    used-snoc p (u ∷ us) h = (h.0, used-snoc p us h.1)
