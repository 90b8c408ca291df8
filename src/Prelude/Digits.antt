-- ===== src/Prelude/Digits.antt =====
-- `strconv.FormatInt`, `strconv.FormatUint`, `%016x` and `encoding/hex`, over bytes.
use Prim.Native.Nat.{ℕ, zero, suc, ◌+◌, ◌/◌, ◌%◌}
use mathlib.Core.List.{[], ◌∷◌, ◌++◌}
use ingest.Prelude.Tests.{ltb, if◌then◌else◌}
use ingest.Prelude.Text.{GoString}
use ingest.Prelude.Int.{ℤ, pos, negsuc}

-- The digits of a number below the value of the fuel, most significant first.
decimal_loop : ℕ → ℕ → GoString → GoString
decimal_loop zero n acc = acc
decimal_loop (suc fuel) n acc =
    let rest = decimal_loop fuel (n / 10) ((n % 10 + 48) ∷ acc) in
    if ltb n 10 then (n + 48) ∷ acc else rest

-- base 10, as `strconv.FormatUint(n, 10)`
unfoldable pub decimal : ℕ → GoString
unfolding decimal_loop
decimal n = decimal_loop (suc n) n []

-- base 10, as `strconv.FormatInt(n, 10)`
unfoldable pub decimal_int : ℤ → GoString
unfolding decimal
decimal_int (pos n) = decimal n
decimal_int (negsuc n) = 45 ∷ decimal (suc n)

-- a lower-case hexadecimal digit
unfoldable pub hex_digit : ℕ → ℕ
hex_digit n = if ltb n 10 then n + 48 else n + 87

-- `hex.EncodeToString`
unfoldable pub hex_encode : GoString → GoString
unfolding hex_digit
hex_encode [] = []
hex_encode (b ∷ bs) = hex_digit (b / 16) ∷ hex_digit (b % 16) ∷ hex_encode bs

-- the last `w` hexadecimal digits, most significant first: `%016x` at `w = 16`
unfoldable pub hex_fixed : ℕ → ℕ → GoString
unfolding hex_digit
hex_fixed zero n = []
hex_fixed (suc w) n = hex_fixed w (n / 16) ++ hex_digit (n % 16) ∷ []
