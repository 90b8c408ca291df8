-- ===== src/GoText.antt =====
-- What the sources use of Go's strings and encoding/json that rests on the Unicode tables or on a
-- JSON reader. It enters every definition that needs it as this record.
use ingest.Prelude.{GoString, List, Option, nat_key, text_key}

pub record GoText : Type 0 where
  pub to_upper : GoString → GoString
  pub to_lower : GoString → GoString
  -- `json.Unmarshal` into a `[]string`; `none` is an error
  pub unmarshal_strings : GoString → Option (List GoString)
