-- ===== src/Tests/Auth.antt =====
-- internal/auth and internal/ingestion/otlphttp on concrete inputs.
use ingest.Prelude.{
  GoString, Option, [], arith, false, if◌then◌else◌, lit, ltb, nat_key, none, refl, some, text_beq,
  text_key, true, ℕ, ◌+◌, ◌==◌, ◌∷◌, ◌≡◌, ◌≢◌, ◌≤◌, ◌⊎◌,
}
use ingest.Rpc.{RpcResult, response}
use ingest.Auth.{
  CacheEntry, DbAnswer, Limiter, Moments, hash_api_key, missing_api_key, no_rows, rejected,
  resolve_tenant_id, row, tenant,
}
use ingest.Auth.Fresh.{IsFresh}
use ingest.Auth.Resolve.{
  InOrder, IsJustified, resolve_tenant_id-IsJustified, resolve_tenant_id_revoked,
}
use ingest.Auth.Grpc.{TenantResolver}
use ingest.OtlpHttp.{
  Codec, Request, export_handler, json_type, otlp_type, read_all, read_body, serve_tenant,
  unmarshal,
}
use ingest.OtlpHttp.Accept.{Outcome, export_handler-Outcome}
use ingest.Tests.OneSlot.{one_slot, slot_peek}

-- A database with the tenant 7 for every key up to the time 100.
abbrev db : ℕ → GoString → DbAnswer
db now hash = if ltb now 100 then row 7 else no_rows

abbrev digest : GoString → GoString
digest s = s

abbrev api_key : GoString
api_key = 1 ∷ []

abbrev always : Limiter ℕ
always now n = (n, true)

abbrev at_5 : Moments
at_5 = record { looked = 5; looked_again = 6; asked = 7; stored = 8 }

abbrev at_200 : Moments
at_200 = record { looked = 200; looked_again = 201; asked = 202; stored = 203 }

abbrev empty : Option (GoString × CacheEntry)
empty = none

empty-IsFresh : (clock : ℕ) → IsFresh one_slot db 30 2 clock empty
unfolding slot_peek
empty-IsFresh clock k e p = absurd (cc)

at_5-InOrder : InOrder 0 2 at_5
at_5-InOrder = record {
  starts = omega arith;
  looks = omega arith;
  asks = omega arith;
  stores = omega arith;
  prompt = omega arith;
}

at_200-InOrder : InOrder 9 2 at_200
at_200-InOrder = record {
  starts = omega arith;
  looks = omega arith;
  asks = omega arith;
  stores = omega arith;
  prompt = omega arith;
}

resolve_tenant_id-IsJustified_example :
    let r = resolve_tenant_id one_slot always db digest 30 at_5 api_key empty 0 in
    ((api_key ≡ []) × (r.2 ≡ rejected missing_api_key)
      ⊎ (api_key ≢ []) × IsJustified one_slot always db digest 30 2 5 api_key r.2)
    × IsFresh one_slot db 30 2 8 r.0
resolve_tenant_id-IsJustified_example =
    resolve_tenant_id-IsJustified one_slot always db digest 30 2 0 at_5 api_key empty 0 at_5-InOrder
      (empty-IsFresh 0)

gone : (now id : ℕ) → 100 ≤ now → db now (hash_api_key db digest api_key) ≢ row id
gone now id h p = ground arith

resolve_tenant_id_revoked_example :
    (resolve_tenant_id one_slot always db digest 30 at_200 api_key empty 0).2 ≢ tenant 7
resolve_tenant_id_revoked_example =
    resolve_tenant_id_revoked one_slot always db digest 30 2 9 at_200 api_key empty 0 100
      at_200-InOrder (empty-IsFresh 9) gone (omega arith) 7

-- A codec whose requests and responses are the bytes themselves.
abbrev plain : Codec GoString GoString
plain = record {
  parse_media_type = λ t. some t;
  gzip = λ s. none;
  unmarshal_proto = λ b. some b;
  unmarshal_json = λ b. some b;
  marshal_proto = λ b. b;
  format_json = λ b. b;
}

abbrev resolver : TenantResolver ℕ
resolver key n = (n + 1, if key == [] then rejected missing_api_key else tenant 7)

abbrev count : ℕ → GoString → ℕ → ℕ × RpcResult GoString
count id req n = (n + 10, response [])

abbrev post : Request
post = record {
  method = lit "POST";
  api_key = 1 ∷ [];
  content_type = json_type;
  content_encoding = [];
  body = record { bytes = 5 ∷ []; fault = false };
}

export_handler-Outcome_example :
    Outcome plain resolver count post 0 (export_handler plain resolver count post 0)
export_handler-Outcome_example = export_handler-Outcome plain resolver count post 0

post_run : (export_handler plain resolver count post 0).0 ≡ 11
unfolding export_handler serve_tenant otlp_type read_body read_all unmarshal lit
    ingest.Prelude.text_beq
post_run = refl
