-- ===== src/Prelude/Text.antt =====
-- A Go string is a sequence of bytes.
use Prim.Native.Nat.{ℕ}
use Prim.Native.Char.{code}
use Prim.Native.String.{String}
use mathlib.Core.List.{List, [], ◌∷◌}

abbrev pub GoString : Type 0
GoString = List ℕ

-- A string literal of the source. All of them are ASCII, so the code points are the bytes.
unfoldable pub lit : String → GoString
lit String.[] = []
lit (String.◌∷◌ c s) = code c ∷ lit s
