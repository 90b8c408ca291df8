-- ===== src/Infra/Otlp/Hex.antt =====
-- `BytesToHex` of internal/infra/otlp/protoconv.go: trace and span ids as text.
use ingest.Prelude.{
  ℕ, ◌+◌, ◌-◌, ◌*◌, ◌/◌, ◌%◌, ◌<◌, [], ◌∷◌, ltb, nat_beq, if◌then◌else◌, All, GoString, ◌≡◌, refl,
  ap₂, arith, Bool-cases, inl, inr,
}
use ingest.Prelude.Digits.{hex_digit, hex_encode}
use ingest.Infra.Otlp.{bytes_to_hex_loop, bytes_to_hex}

-- The value of a lower-case hexadecimal digit.
abbrev digit_value : ℕ → ℕ
digit_value c = if ltb c 58 then c - 48 else c - 87

-- Reads hexadecimal text back, two digits to a byte.
abbrev pub hex_decode : GoString → GoString
hex_decode [] = []
hex_decode (_ ∷ []) = []
hex_decode (c ∷ d ∷ s) = (digit_value c * 16 + digit_value d) ∷ hex_decode s

digit_value-hex_digit : (n : ℕ) → n < 16 → digit_value (hex_digit n) ≡ n
unfolding hex_digit
digit_value-hex_digit n h = ground arith

hex_decode-hex_encode : (b : GoString) → All (λ c. c < 256) b → hex_decode (hex_encode b) ≡ b
unfolding hex_encode
hex_decode-hex_encode [] h = refl
hex_decode-hex_encode (c ∷ cs) h =
    ap₂ ◌∷◌
      (omega (
        arith,
        digit_value-hex_digit (c / 16) (omega arith),
        digit_value-hex_digit (c % 16) (omega arith),
      ))
      (hex_decode-hex_encode cs h.1)

abbrev pub AllZero : GoString → Type 0
AllZero = All (λ c. c ≡ 0)

loop_zero : (b cs : GoString) → AllZero cs → bytes_to_hex_loop b cs ≡ []
unfolding bytes_to_hex_loop
loop_zero b [] h = refl
loop_zero b (c ∷ cs) h = ground (arith, loop_zero b cs h.1)

loop_nonzero : (b cs : GoString) → ¬ AllZero cs → bytes_to_hex_loop b cs ≡ hex_encode b
unfolding bytes_to_hex_loop
loop_nonzero b [] h = absurd (h tt)
loop_nonzero b (c ∷ cs) h = elim (Bool-cases (nat_beq c 0)) [
  | inl e ↦ rw e (loop_nonzero b cs (λ z. h (ground arith, z)))
  | inr e ↦ rw e
]

-- An id of zero bytes only, the empty one among them, becomes the empty text; any other id becomes
-- a text from which its bytes are read back.
pub hex_decode-bytes_to_hex :
    (b : GoString)
    → All (λ c. c < 256) b
    → (AllZero b → bytes_to_hex b ≡ []) × (¬ AllZero b → hex_decode (bytes_to_hex b) ≡ b)
unfolding bytes_to_hex
hex_decode-bytes_to_hex b h =
    (loop_zero b b, λ n. rw (loop_nonzero b b n) (hex_decode-hex_encode b h))
