-- ===== src/GoStrings.antt =====
-- What the sources use of Go's package strings, over bytes.
pub mod Trim
pub mod Split
use mathlib.Core.List.{reverse}
use ingest.Prelude.{
  GoString, List, Option, [], arith, drop, if◌then◌else◌, length, map, nat_beq, nat_key, none, refl,
  some, suc, text_key, zero, ℕ, ◌++◌, ◌∷◌, ◌≡◌,
}

-- `strings.LastIndexByte`; `none` is -1
unfoldable pub last_index_byte : GoString → ℕ → Option ℕ
last_index_byte [] b = none
last_index_byte (c ∷ s) b = elim (last_index_byte s b) [
  | some i ↦ some (suc i)
  | none ↦ if nat_beq c b then some 0 else none
]

-- The last separator stands before the part that holds none.
pub last_index_byte-append :
    (sep : ℕ) (g d : GoString)
    → last_index_byte d sep ≡ none
    → last_index_byte (g ++ sep ∷ d) sep ≡ some (length g)
unfolding last_index_byte
last_index_byte-append sep [] d h = ground arith
last_index_byte-append sep (c ∷ g) d h = rw (last_index_byte-append sep g d h)

pub drop_past : (sep : ℕ) (g d : GoString) → drop (suc (length g)) (g ++ sep ∷ d) ≡ d
drop_past sep [] d = refl
drop_past sep (c ∷ g) d = drop_past sep g d

-- `strings.CutPrefix`; `none` when the prefix is not there
unfoldable pub cut_prefix : GoString → GoString → Option GoString
cut_prefix s [] = some s
cut_prefix [] (p ∷ ps) = none
cut_prefix (c ∷ s) (p ∷ ps) = if nat_beq c p then cut_prefix s ps else none

-- `strings.Split` at one byte: the parts, into the part read so far
unfoldable pub split_byte : ℕ → GoString → GoString → List GoString
split_byte sep part [] = part ∷ []
split_byte sep part (c ∷ s) =
    if nat_beq c sep then part ∷ split_byte sep [] s else split_byte sep (part ++ c ∷ []) s

-- The encodings of the runes that `unicode.IsSpace` accepts.
abbrev pub white_space : List GoString
white_space =
    (9 ∷ [])
    ∷ (10 ∷ [])
    ∷ (11 ∷ [])
    ∷ (12 ∷ [])
    ∷ (13 ∷ [])
    ∷ (32 ∷ [])
    ∷ (0xC2 ∷ 0x85 ∷ [])
    ∷ (0xC2 ∷ 0xA0 ∷ [])
    ∷ (0xE1 ∷ 0x9A ∷ 0x80 ∷ [])
    ∷ (0xE2 ∷ 0x80 ∷ 0x80 ∷ [])
    ∷ (0xE2 ∷ 0x80 ∷ 0x81 ∷ [])
    ∷ (0xE2 ∷ 0x80 ∷ 0x82 ∷ [])
    ∷ (0xE2 ∷ 0x80 ∷ 0x83 ∷ [])
    ∷ (0xE2 ∷ 0x80 ∷ 0x84 ∷ [])
    ∷ (0xE2 ∷ 0x80 ∷ 0x85 ∷ [])
    ∷ (0xE2 ∷ 0x80 ∷ 0x86 ∷ [])
    ∷ (0xE2 ∷ 0x80 ∷ 0x87 ∷ [])
    ∷ (0xE2 ∷ 0x80 ∷ 0x88 ∷ [])
    ∷ (0xE2 ∷ 0x80 ∷ 0x89 ∷ [])
    ∷ (0xE2 ∷ 0x80 ∷ 0x8A ∷ [])
    ∷ (0xE2 ∷ 0x80 ∷ 0xA8 ∷ [])
    ∷ (0xE2 ∷ 0x80 ∷ 0xA9 ∷ [])
    ∷ (0xE2 ∷ 0x80 ∷ 0xAF ∷ [])
    ∷ (0xE2 ∷ 0x81 ∷ 0x9F ∷ [])
    ∷ (0xE3 ∷ 0x80 ∷ 0x80 ∷ [])
    ∷ []

-- what follows the first of the prefixes with which a text begins
unfoldable pub cut_any : List GoString → GoString → Option GoString
unfolding cut_prefix
cut_any [] s = none
cut_any (p ∷ ps) s = elim (cut_prefix s p) [ none ↦ cut_any ps s | some rest ↦ some rest ]

-- Removes prefixes as long as there is one, at most as often as the fuel says.
unfoldable pub trim_prefixes : List GoString → ℕ → GoString → GoString
unfolding cut_any
trim_prefixes ps zero s = s
trim_prefixes ps (suc fuel) s = elim (cut_any ps s) [
  | none ↦ s
  | some rest ↦ trim_prefixes ps fuel rest
]

-- `strings.TrimSpace`: white space goes from the front, then, read backwards, from the end. Each
-- round takes a byte at least, so the length is enough fuel.
unfoldable pub trim_space : GoString → GoString
unfolding trim_prefixes
trim_space s =
    let t = trim_prefixes white_space (length s) s in
    reverse (trim_prefixes (map reverse white_space) (length t) (reverse t))
