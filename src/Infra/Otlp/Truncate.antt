-- ===== src/Infra/Otlp/Truncate.antt =====
-- What `TruncateUTF8` of internal/infra/otlp/strings.go keeps of a string.
use mathlib.Core.List.{append-nil}
use ingest.Prelude.{
  Bool-cases, GoString, [], arith, drop, inl, inr, leb, length, length-take, nat_key, refl, suc,
  take, take-append-drop, text_key, true, zero, ℕ, ◌++◌, ◌+◌, ◌<◌, ◌∷◌, ◌≡◌, ◌≤◌, ◌⊎◌,
}
use ingest.Infra.Otlp.{byte_at, cut_at, rune_start, truncate_utf8}

-- Whether `b` is a continuation byte.
abbrev pub Continues : ℕ → Type 0
Continues b = (0x80 ≤ b) × (b < 0xC0)

-- Well-formed UTF-8, by the table of the Unicode standard (3-7).
pub data Utf8 : GoString → Type 0 where
  done : Utf8 []
  one : {b : ℕ} {s : GoString} → b < 0x80 → Utf8 s → Utf8 (b ∷ s)
  two : {b c : ℕ} {s : GoString} → 0xC2 ≤ b → b < 0xE0 → Continues c → Utf8 s → Utf8 (b ∷ c ∷ s)
  three :
      {b c d : ℕ} {s : GoString}
      → 0xE0 ≤ b
      → b < 0xF0
      → (b ≡ 0xE0 → 0xA0 ≤ c)
      → (b ≡ 0xED → c < 0xA0)
      → Continues c
      → Continues d
      → Utf8 s
      → Utf8 (b ∷ c ∷ d ∷ s)
  four :
      {b c d e : ℕ} {s : GoString}
      → 0xF0 ≤ b
      → b < 0xF5
      → (b ≡ 0xF0 → 0x90 ≤ c)
      → (b ≡ 0xF4 → c < 0x90)
      → Continues c
      → Continues d
      → Continues e
      → Utf8 s
      → Utf8 (b ∷ c ∷ d ∷ e ∷ s)

-- Position `n` of `s` lies between two runes.
abbrev Boundary : GoString → ℕ → Type 0
Boundary s n = (n ≡ 0) ⊎ (rune_start (byte_at s n) ≡ true)

-- A continuation byte starts no rune.
no_boundary : (c : ℕ) → Continues c → rune_start c ≡ true → ⊥
unfolding rune_start
no_boundary c h e = ground arith

later : (b : ℕ) (s : GoString) (n : ℕ) → Boundary (b ∷ s) (suc n) → rune_start (byte_at s n) ≡ true
unfolding byte_at
later b s n (inl e) = absurd (omega arith)
later b s n (inr e) = e

Utf8-take : {s : GoString} (n : ℕ) → Boundary s n → Utf8 s → Utf8 (take n s)
unfolding byte_at
Utf8-take zero h u = done
Utf8-take (suc n) h done = done
Utf8-take (suc n) h (one {b} {s} p u) = one p (Utf8-take n (inr (later b s n h)) u)
Utf8-take (suc zero) h (two {b} {c} {s} p q k u) = absurd (no_boundary c k (later b (c ∷ s) 0 h))
Utf8-take (suc (suc n)) h (two {b} {c} {s} p q k u) =
    two p q k (Utf8-take n (inr (later b (c ∷ s) (suc n) h)) u)
Utf8-take (suc zero) h (three {b} {c} {d} {s} p q r t k l u) =
    absurd (no_boundary c k (later b (c ∷ d ∷ s) 0 h))
Utf8-take (suc (suc zero)) h (three {b} {c} {d} {s} p q r t k l u) =
    absurd (no_boundary d l (later b (c ∷ d ∷ s) 1 h))
Utf8-take (suc (suc (suc n))) h (three {b} {c} {d} {s} p q r t k l u) =
    three p q r t k l (Utf8-take n (inr (later b (c ∷ d ∷ s) (suc (suc n)) h)) u)
Utf8-take (suc zero) h (four {b} {c} {d} {e} {s} p q r t k l m u) =
    absurd (no_boundary c k (later b (c ∷ d ∷ e ∷ s) 0 h))
Utf8-take (suc (suc zero)) h (four {b} {c} {d} {e} {s} p q r t k l m u) =
    absurd (no_boundary d l (later b (c ∷ d ∷ e ∷ s) 1 h))
Utf8-take (suc (suc (suc zero))) h (four {b} {c} {d} {e} {s} p q r t k l m u) =
    absurd (no_boundary e m (later b (c ∷ d ∷ e ∷ s) 2 h))
Utf8-take (suc (suc (suc (suc n)))) h (four {b} {c} {d} {e} {s} p q r t k l m u) =
    four p q r t k l m (Utf8-take n (inr (later b (c ∷ d ∷ e ∷ s) (suc (suc (suc n))) h)) u)

cut_at-Boundary : (s : GoString) (n : ℕ) → Boundary s (cut_at s n)
unfolding cut_at
cut_at-Boundary s zero = inl refl
cut_at-Boundary s (suc n) = elim (Bool-cases (rune_start (byte_at s (suc n)))) [
  | inl e ↦ rw e (inr e)
  | inr e ↦ rw e (cut_at-Boundary s n)
]

cut_at-le : (s : GoString) (n : ℕ) → cut_at s n ≤ n
unfolding cut_at
cut_at-le s zero = omega arith
cut_at-le s (suc n) = ground (arith, cut_at-le s n)

-- The loop stops at the last boundary.
cut_at_last : (s : GoString) (n j : ℕ) → j ≤ n → rune_start (byte_at s j) ≡ true → j ≤ cut_at s n
unfolding cut_at
cut_at_last s zero j h e = h
cut_at_last s (suc n) j h e = elim (Bool-cases (rune_start (byte_at s (suc n)))) [
  | inl f ↦ rw f h
  | inr f ↦ rw f (cut_at_last s n j (ground arith) e)
]

-- A rune has four bytes at most.
near_boundary :
    {s : GoString} (n : ℕ)
    → Utf8 s
    → (j : ℕ) × (j ≤ n) × (n ≤ j + 3) × (rune_start (byte_at s j) ≡ true)
unfolding byte_at rune_start
near_boundary n done = (n, omega arith, omega arith, refl)
near_boundary zero (one p u) = (0, omega arith, omega arith, ground arith)
near_boundary (suc n) (one p u) =
    let (j, a, b, c) = near_boundary n u in (suc j, omega arith, omega arith, c)
near_boundary zero (two p q k u) = (0, omega arith, omega arith, ground arith)
near_boundary (suc zero) (two p q k u) = (0, omega arith, omega arith, ground arith)
near_boundary (suc (suc n)) (two p q k u) =
    let (j, a, b, c) = near_boundary n u in (suc (suc j), omega arith, omega arith, c)
near_boundary zero (three p q r s k l u) = (0, omega arith, omega arith, ground arith)
near_boundary (suc zero) (three p q r s k l u) = (0, omega arith, omega arith, ground arith)
near_boundary (suc (suc zero)) (three p q r s k l u) = (0, omega arith, omega arith, ground arith)
near_boundary (suc (suc (suc n))) (three p q r s k l u) =
    let (j, a, b, c) = near_boundary n u in (suc (suc (suc j)), omega arith, omega arith, c)
near_boundary zero (four p q r s k l m u) = (0, omega arith, omega arith, ground arith)
near_boundary (suc zero) (four p q r s k l m u) = (0, omega arith, omega arith, ground arith)
near_boundary (suc (suc zero)) (four p q r s k l m u) = (0, omega arith, omega arith, ground arith)
near_boundary (suc (suc (suc zero))) (four p q r s k l m u) =
    (0, omega arith, omega arith, ground arith)
near_boundary (suc (suc (suc (suc n)))) (four p q r s k l m u) =
    let (j, a, b, c) = near_boundary n u in (suc (suc (suc (suc j))), omega arith, omega arith, c)

pub length-truncate_utf8-le : (s : GoString) (n : ℕ) → length (truncate_utf8 s n) ≤ n
unfolding truncate_utf8
length-truncate_utf8-le s n = elim (Bool-cases (leb (length s) n)) [
  | inl e ↦ rw e (ground arith)
  | inr e ↦ rw e (omega (arith, length-take (cut_at s n) s, cut_at-le s n))
]

-- What a truncated string must be: a prefix that fits, well-formed, the whole string where that
-- fits, and short of the limit by three bytes at most where it does not.
pub record IsTruncation (s : GoString) (max_bytes : ℕ) (t : GoString) : Type 0 where
  pub prefix : (rest : GoString) × (t ++ rest ≡ s)
  pub fits : length t ≤ max_bytes
  pub valid : Utf8 t
  pub whole : length s ≤ max_bytes → t ≡ s
  pub tight : max_bytes < length s → max_bytes ≤ length t + 3

-- On well-formed UTF-8 the result of `TruncateUTF8` is a prefix of at most `maxBytes` bytes that is
-- well-formed again; it is the whole string if that fits, and otherwise it stops at most three
-- bytes before the limit.
pub truncate_utf8-IsTruncation :
    (s : GoString) (max_bytes : ℕ) → Utf8 s → IsTruncation s max_bytes (truncate_utf8 s max_bytes)
unfolding truncate_utf8
truncate_utf8-IsTruncation s max_bytes u = elim (Bool-cases (leb (length s) max_bytes)) [
  | inl e ↦ rw e (record {
    prefix = ([], append-nil s);
    fits = ground arith;
    valid = u;
    whole = λ _. refl;
    tight = λ h. absurd (ground arith);
  })
  | inr e ↦
      let n = cut_at s max_bytes in
      let (j, a, b, c) = near_boundary max_bytes u in
      rw e (record {
        prefix = (drop n s, take-append-drop n s);
        fits = omega (arith, length-take n s, cut_at-le s max_bytes);
        valid = Utf8-take n (cut_at-Boundary s max_bytes) u;
        whole = λ h. absurd (ground arith);
        tight = λ h. omega (arith, length-take n s, cut_at_last s max_bytes j a c);
      })
]
