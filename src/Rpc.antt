-- ===== src/Rpc.antt =====
-- What the sources use of google.golang.org/grpc/status: the codes, and a status error.
use ingest.Prelude.{GoString, nat_key, text_key}

pub data Code : Type 0 where
  invalid_argument : Code
  resource_exhausted : Code
  internal_code : Code
  unavailable : Code
  unauthenticated : Code
  -- any other code, `Unknown` of an error without a status included
  other_code : Code

-- `status.Error(code, message)`
pub record Status : Type 0 where
  pub code : Code
  pub message : GoString

pub data RpcResult {ℓ} (A : Type ℓ) : Type ℓ where
  response : A → RpcResult A
  failed : Status → RpcResult A
