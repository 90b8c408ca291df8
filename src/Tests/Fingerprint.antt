-- ===== src/Tests/Fingerprint.antt =====
-- internal/infra/fingerprint on concrete inputs.
use ingest.Prelude.{
  GoString, [], arith, lit, nat_key, refl, sort, sort_insert, text_beq, text_beq_iff, text_key,
  text_leb, ℕ, ◌*◌, ◌+◌, ◌∷◌, ◌≡◌,
}
use ingest.GoMap.{IsMap, SameMap, at, lookup}
use ingest.Infra.Otlp.{StringMap}
use ingest.Infra.Otlp.Truncate.{done, one}
use ingest.Infra.Fingerprint.{identity_bytes, is_high_cardinality, series_hash}
use ingest.Infra.Fingerprint.Identity.{All-IsText, IsText, identity_bytes_injective}
use ingest.Infra.Fingerprint.Series.{SameIdentity, series_hash-SameIdentity}

abbrev attrs : StringMap
attrs = (98 ∷ [], 1 ∷ []) ∷ (97 ∷ [], 2 ∷ []) ∷ []

abbrev reordered : StringMap
reordered = (97 ∷ [], 2 ∷ []) ∷ (98 ∷ [], 1 ∷ []) ∷ []

attrs-IsMap : IsMap attrs
unfolding text_beq
attrs-IsMap = (refl, (refl, tt))

reordered-IsMap : IsMap reordered
unfolding text_beq
reordered-IsMap = (refl, (refl, tt))

attrs_same : SameMap attrs reordered
unfolding lookup
attrs_same a = ground (arith, text_beq_iff (97 ∷ []) a, text_beq_iff (98 ∷ []) a)

-- A digest that sees every byte.
abbrev sum_bytes : GoString → ℕ
sum_bytes [] = 7
sum_bytes (b ∷ bs) = b + 256 * sum_bytes bs

identity : identity_bytes attrs ≡ 97 ∷ 255 ∷ 2 ∷ 255 ∷ 98 ∷ 255 ∷ 1 ∷ 255 ∷ []
unfolding identity_bytes at lookup sort sort_insert text_beq text_leb
identity = refl

attrs-IsText : IsText attrs
attrs-IsText = All-IsText attrs (
  (one (omega arith) done, one (omega arith) done),
  ((one (omega arith) done, one (omega arith) done), tt),
)

reordered-IsText : IsText reordered
reordered-IsText = All-IsText reordered (
  (one (omega arith) done, one (omega arith) done),
  ((one (omega arith) done, one (omega arith) done), tt),
)

identity_bytes_injective_example : SameMap attrs reordered
unfolding identity_bytes at lookup sort sort_insert text_beq text_leb
identity_bytes_injective_example =
    identity_bytes_injective attrs reordered attrs-IsText reordered-IsText refl

abbrev with_pid : StringMap
with_pid = (lit "process.pid", 49 ∷ []) ∷ attrs

with_pid-IsMap : IsMap with_pid
unfolding text_beq lit
with_pid-IsMap = (refl, attrs-IsMap)

with_pid_same : SameIdentity attrs with_pid
unfolding is_high_cardinality lookup
with_pid_same a h = ground (arith, text_beq_iff (lit "process.pid") a)

series_hash-SameIdentity_example :
    series_hash sum_bytes (lit "up") (lit "Unspecified") attrs reordered
    ≡ series_hash sum_bytes (lit "up") (lit "Unspecified") with_pid reordered
series_hash-SameIdentity_example =
    series_hash-SameIdentity sum_bytes (lit "up") (lit "Unspecified") attrs with_pid reordered
      reordered attrs-IsMap with_pid-IsMap reordered-IsMap reordered-IsMap with_pid_same
      (λ a h. refl)
