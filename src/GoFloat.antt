-- ===== src/GoFloat.antt =====
-- What the sources use of `float64`. It is not modelled: it enters every definition that needs it
-- as this record.
use ingest.Prelude.{Option, GoString}
use ingest.Prelude.Int.{ℤ}

pub record GoFloat : Type 1 where
  pub Float : Type 0
  pub zero : Float
  pub one : Float
  -- `float64(n)` of an `int64`
  pub of_int : ℤ → Float
  -- `strconv.FormatFloat(x, 'f', -1, 64)`
  pub format : Float → GoString
  -- `strconv.ParseFloat(s, 64)`; `none` is an error
  pub parse : GoString → Option Float
  -- `math.Pow`
  pub pow : Float → Float → Float
