-- ===== src/Tests/Otlp.antt =====
-- internal/infra/otlp on concrete inputs.
use ingest.Prelude.{
  GoString, [], arith, lit, nat_key, refl, sort, sort_insert, text_beq, text_key, text_leb, ◌∷◌,
  ◌≡◌,
}
use ingest.Prelude.Digits.{hex_digit, hex_encode}
use ingest.GoMap.{IsMap, delete, sorted_keys}
use ingest.Infra.Otlp.{
  StringMap, byte_at, bytes_to_hex, cap_string_map, cut_at, delete_all, rune_start, truncate_utf8,
}
use ingest.Infra.Otlp.Truncate.{IsTruncation, done, one, truncate_utf8-IsTruncation, two}
use ingest.Infra.Otlp.Cap.{IsCapped, cap_string_map-IsCapped}

-- "aé": the second rune has two bytes.
abbrev accented : GoString
accented = 0x61 ∷ 0xC3 ∷ 0xA9 ∷ []

truncates : truncate_utf8 accented 2 ≡ 0x61 ∷ []
unfolding truncate_utf8 cut_at byte_at rune_start
truncates = refl

truncate_utf8-IsTruncation_example : IsTruncation accented 2 (truncate_utf8 accented 2)
truncate_utf8-IsTruncation_example =
    truncate_utf8-IsTruncation accented 2
      (one (omega arith) (two (omega arith) (omega arith) (omega arith) done))

abbrev three_attrs : StringMap
three_attrs = (98 ∷ [], 1 ∷ []) ∷ (97 ∷ [], 2 ∷ []) ∷ (99 ∷ [], 3 ∷ []) ∷ []

caps : cap_string_map three_attrs 2 ≡ ((98 ∷ [], 1 ∷ []) ∷ (97 ∷ [], 2 ∷ []) ∷ [], 1)
unfolding cap_string_map delete_all delete sorted_keys sort sort_insert text_beq text_leb
caps = refl

three_attrs-IsMap : IsMap three_attrs
unfolding text_beq
three_attrs-IsMap = (refl, (refl, (refl, tt)))

cap_string_map-IsCapped_example :
    IsCapped three_attrs 2 (cap_string_map three_attrs 2).0 (cap_string_map three_attrs 2).1
cap_string_map-IsCapped_example = cap_string_map-IsCapped three_attrs 2 three_attrs-IsMap

hex : bytes_to_hex (0x0A ∷ 0xFF ∷ []) ≡ lit "0aff"
unfolding bytes_to_hex hex_encode hex_digit lit
hex = refl
