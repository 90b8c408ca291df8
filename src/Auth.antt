-- ===== src/Auth.antt =====
-- internal/auth and internal/authrepo: from an API key to a tenant (resolver.go, authrepo.go,
-- grpc.go). Times are nanoseconds.
pub mod Fresh
pub mod Resolve
pub mod Grpc
use ingest.Prelude.{
  Bool, GoString, Option, [], if◌then◌else◌, leb, ltb, nat_key, none, some, text_key, ℕ, ◌*◌, ◌+◌,
  ◌∷◌,
}
use ingest.Prelude.Int.{pos_part, ℤ}
use ingest.Prelude.Digits.{hex_encode}
use ingest.LruCache.{Lru}

-- `ErrMissingAPIKey`, `ErrInvalidAPIKey`, `ErrAuthRateLimited`, and any other error
pub data AuthError : Type 0 where
  missing_api_key : AuthError
  invalid_api_key : AuthError
  auth_rate_limited : AuthError
  other_error : GoString → AuthError

-- a tenant id, or an error
pub data Resolution : Type 0 where
  tenant : ℕ → Resolution
  rejected : AuthError → Resolution

-- `db.GetContext` of the query on `tenant`: the id, `sql.ErrNoRows`, or another error
pub data DbAnswer : Type 0 where
  row : ℕ → DbAnswer
  no_rows : DbAnswer
  db_error : GoString → DbAnswer

pub record CacheEntry : Type 0 where
  pub tenant_id : ℕ
  pub err : Option AuthError
  pub expires_at : ℕ

abbrev pub second : ℕ
second = 1_000_000_000

abbrev pub default_cache_ttl : ℕ
default_cache_ttl = 30 * second

abbrev pub default_cache_size : ℕ
default_cache_size = 50_000

abbrev pub negative_cache_ttl : ℕ
negative_cache_ttl = 15 * second

-- What a result of the finder, an id or an error, says of the key.
abbrev pub resolution_of : DbAnswer → Resolution
resolution_of (row id) = tenant id
resolution_of no_rows = rejected invalid_api_key
resolution_of (db_error e) = rejected (other_error e)

-- `db` answers the query, at a time, for a hash; `sum256` stands for `sha256.Sum256`.
module _ (db : ℕ → GoString → DbAnswer) (sum256 : GoString → GoString) where
  -- `hashAPIKey`
  unfoldable pub hash_api_key : GoString → GoString
  hash_api_key api_key = hex_encode (sum256 api_key)

  -- `Repository.FindTenantIDByAPIKey`, at a time
  unfoldable pub find_tenant_id_by_api_key : ℕ → GoString → Resolution
  unfolding hash_api_key
  find_tenant_id_by_api_key now api_key = elim (db now (hash_api_key api_key)) [
    | row id ↦ tenant id
    | no_rows ↦ rejected invalid_api_key
    | db_error e ↦ rejected (other_error e)
  ]

-- The moments at which one call of `ResolveTenantID` reads the clock or asks the database.
pub record Moments : Type 0 where
  -- the first `lookupCache`
  pub looked : ℕ
  -- the second one, inside the singleflight function
  pub looked_again : ℕ
  -- when the database answers
  pub asked : ℕ
  -- `cacheSet`
  pub stored : ℕ

-- A rate limiter of x/time/rate, with its state: whether a call may go on.
abbrev pub Limiter : Type 0 → Type 0
Limiter S = ℕ → S → S × Bool

module _ {Cache : Type 0} (lru : Lru GoString CacheEntry Cache) where
  -- `lookupCache`
  unfoldable pub lookup_cache : ℕ → GoString → Cache → Cache × Option CacheEntry
  lookup_cache now cache_key cache =
      let (cache', found) = lru.get cache_key cache in
      elim found [
        | none ↦ (cache', none)
        | some e ↦
            if ltb e.expires_at now then (lru.remove cache_key cache', none) else (cache', some e)
      ]

  -- `cacheSet`
  unfoldable pub cache_set : ℕ → ℕ → GoString → ℕ → Option AuthError → Cache → Cache
  cache_set ttl now cache_key tenant_id err cache =
      lru.add cache_key
        (record {
          tenant_id = tenant_id;
          err = err;
          expires_at = now + (elim err [ none ↦ ttl | some _ ↦ negative_cache_ttl ]);
        })
        cache

-- `return entry.tenantID, entry.err`
unfoldable pub reply : CacheEntry → Resolution
reply e = elim e.err [ none ↦ tenant e.tenant_id | some x ↦ rejected x ]

module _ {Cache S : Type 0} (lru : Lru GoString CacheEntry Cache) (allow : Limiter S)
    (db : ℕ → GoString → DbAnswer) (sum256 : GoString → GoString) (ttl : ℕ) where
  -- the end of the singleflight function, once the finder has answered
  unfoldable pub remember : ℕ → GoString → Resolution → Cache → Cache
  unfolding cache_set
  remember now cache_key (tenant id) cache = cache_set lru ttl now cache_key id none cache
  remember now cache_key (rejected invalid_api_key) cache =
      cache_set lru ttl now cache_key 0 (some invalid_api_key) cache
  remember now cache_key (rejected e) cache = cache

  -- the function that the singleflight group runs
  unfoldable pub flight : Moments → GoString → Cache → S → Cache × S × Resolution
  unfolding lookup_cache reply remember find_tenant_id_by_api_key
  flight at api_key cache limiter =
      let (cache', hit) = lookup_cache lru at.looked_again (sum256 api_key) cache in
      elim hit [
        | some e ↦ (cache', limiter, reply e)
        | none ↦
            let (limiter', allowed) = allow at.looked_again limiter in
            if allowed
            then (let found = find_tenant_id_by_api_key db sum256 at.asked api_key in
                (remember at.stored (sum256 api_key) found cache', limiter', found))
            else (cache', limiter', rejected auth_rate_limited)
      ]

  -- `ResolveTenantID`, for a call that runs its own flight
  unfoldable pub resolve_tenant_id : Moments → GoString → Cache → S → Cache × S × Resolution
  unfolding flight
  resolve_tenant_id at [] cache limiter = (cache, limiter, rejected missing_api_key)
  resolve_tenant_id at (b ∷ bs) cache limiter =
      let (cache', hit) = lookup_cache lru at.looked (sum256 (b ∷ bs)) cache in
      elim hit [ some e ↦ (cache', limiter, reply e) | none ↦ flight at (b ∷ bs) cache' limiter ]

-- `NewAuthenticator`: the time to live, and the size that `lru.New` is given
unfoldable pub authenticator_settings : ℤ → ℤ → ℕ × ℕ
authenticator_settings ttl cache_size = (
  if leb (pos_part ttl) 0 then default_cache_ttl else pos_part ttl,
  if leb (pos_part cache_size) 0 then default_cache_size else pos_part cache_size,
)
