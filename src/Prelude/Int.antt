-- ===== src/Prelude/Int.antt =====
-- Signed integers over the native numbers: Go's `int64` values where a sign matters.
use Prim.Native.Nat.{ℕ, suc, ◌+◌, ◌-◌, ◌*◌, ◌^◌, ◌%◌}
use ingest.Prelude.Tests.{if◌then◌else◌, leb, ltb}

-- `negsuc n` is -(n + 1).
pub data ℤ : Type 0 where
  pos : ℕ → ℤ
  negsuc : ℕ → ℤ

abbrev pub pos_part : ℤ → ℕ
pos_part (pos n) = n
pos_part (negsuc n) = 0

abbrev pub neg_part : ℤ → ℕ
neg_part (pos n) = 0
neg_part (negsuc n) = suc n

-- a - b, as an integer.
abbrev pub sub_ℕ : ℕ → ℕ → ℤ
sub_ℕ a b = if leb b a then pos (a - b) else negsuc (b - a - 1)

infixl 65 ◌-ℤ◌
unfoldable pub ◌-ℤ◌ : ℤ → ℤ → ℤ
a -ℤ b = sub_ℕ (pos_part a + neg_part b) (neg_part a + pos_part b)

-- An integer times a natural number.
infixl 70 ◌*ℤ◌
unfoldable pub ◌*ℤ◌ : ℤ → ℕ → ℤ
a *ℤ n = sub_ℕ (pos_part a * n) (neg_part a * n)

-- The conversion of an integer to a signed one of `w` bits, which wraps around.
unfoldable pub wrap_int : ℕ → ℤ → ℤ
wrap_int w a =
    let n = (pos_part a % 2 ^ w + 2 ^ w - neg_part a % 2 ^ w) % 2 ^ w in
    if ltb n (2 ^ (w - 1)) then pos n else negsuc (2 ^ w - n - 1)

-- `int64(n)` of a `uint64`
unfoldable pub int_of_uint : ℕ → ℤ
int_of_uint n = if ltb n (2 ^ 63) then pos n else negsuc (2 ^ 64 - n - 1)
