-- ===== src/Auth/Resolve.antt =====
-- `ResolveTenantID` as a whole: where its answer comes from, and what it leaves in the cache.
use ingest.Prelude.{
  Bool-cases, GoString, Option-cases, [], ap, arith, inl, inr, nat_key, refl, sym, text_key, ℕ, ◌+◌,
  ◌<◌, ◌∙◌, ◌∷◌, ◌≡◌, ◌≢◌, ◌≤◌, ◌⊎◌,
}
use ingest.Prelude.Digits.{hex_encode}
use ingest.LruCache.{Lru}
use mathlib.Core.Path.{subst}
use ingest.Auth.{
  CacheEntry, DbAnswer, Limiter, Moments, Resolution, auth_rate_limited, cache_set, db_error,
  find_tenant_id_by_api_key, flight, hash_api_key, lookup_cache, missing_api_key,
  negative_cache_ttl, no_rows, rejected, remember, reply, resolution_of, resolve_tenant_id, row,
  tenant,
}
use ingest.Auth.Fresh.{
  IsEntry, IsFresh, IsFresh-later, add-IsFresh, lookup_cache-IsFresh, lookup_cache_hit, ttl_of,
}

-- The call starts after `clock`, its moments follow each other, and what the database answers is
-- in the cache at most `latency` later.
pub record InOrder (clock latency : ℕ) (at : Moments) : Type 0 where
  pub starts : clock ≤ at.looked
  pub looks : at.looked ≤ at.looked_again
  pub asks : at.looked_again ≤ at.asked
  pub stores : at.asked ≤ at.stored
  pub prompt : at.stored ≤ at.asked + latency

DbAnswer-cases :
    (d : DbAnswer)
    → ((id : ℕ) × (d ≡ row id)) ⊎ ((d ≡ no_rows) ⊎ ((e : GoString) × (d ≡ db_error e)))
DbAnswer-cases (row id) = inl (id, refl)
DbAnswer-cases no_rows = inr (inl refl)
DbAnswer-cases (db_error e) = inr (inr (e, refl))

module _ {Cache S : Type 0} (lru : Lru GoString CacheEntry Cache) (allow : Limiter S)
    (db : ℕ → GoString → DbAnswer) (sum256 : GoString → GoString) (ttl latency : ℕ) where
  -- How long an answer may be repeated.
  abbrev pub patience : Resolution → ℕ
  patience (tenant id) = ttl
  patience (rejected e) = negative_cache_ttl

  -- The answer of a call at `now` is the database's, from a time not too long before.
  pub record IsRecent (now : ℕ) (api_key : GoString) (r : Resolution) : Type 0 where
    pub asked : ℕ
    pub recent : now ≤ asked + latency + patience r
    pub answer : r ≡ resolution_of (db asked (hex_encode (sum256 api_key)))

  -- Why a call answered as it did.
  abbrev pub IsJustified : ℕ → GoString → Resolution → Type 0
  IsJustified now api_key r = (r ≡ rejected auth_rate_limited) ⊎ IsRecent now api_key r

  patience-reply : (e : CacheEntry) → patience (reply e) ≡ ttl_of ttl e.err
  unfolding reply
  patience-reply e = elim (Option-cases e.err) [ inl h ↦ rw (h) | inr (x, h) ↦ rw (h) ]

  reply-IsRecent :
      {clock : ℕ} (now : ℕ) (api_key : GoString) (e : CacheEntry)
      → IsEntry lru db ttl latency clock (sum256 api_key) e
      → now ≤ e.expires_at
      → IsRecent now api_key (reply e)
  reply-IsRecent now api_key e i h =
      let bound = patience-reply e in
      record { asked = i.asked; recent = omega arith; answer = i.answer }

  remember-IsFresh :
      (at : Moments) (k : GoString) (c : Cache) (clock : ℕ)
      → InOrder clock latency at
      → IsFresh lru db ttl latency at.stored c
      → IsFresh lru db ttl latency at.stored (
          remember lru allow db sum256 ttl at.stored k
            (resolution_of (db at.asked (hex_encode k)))
            c)
  unfolding remember cache_set reply
  remember-IsFresh at k c clock o f = elim (DbAnswer-cases (db at.asked (hex_encode k))) [
    | inl (id, h) ↦ rw (h) (
        add-IsFresh lru db ttl latency k _ c f (record {
          asked = at.asked;
          stored = at.stored;
          after = o.stores;
          prompt = o.prompt;
          past = omega arith;
          expires = refl;
          answer = sym (ap resolution_of h);
          lasting = inl refl;
        }))
    | inr (inl h) ↦ rw (h) (
        add-IsFresh lru db ttl latency k _ c f (record {
          asked = at.asked;
          stored = at.stored;
          after = o.stores;
          prompt = o.prompt;
          past = omega arith;
          expires = refl;
          answer = sym (ap resolution_of h);
          lasting = inr refl;
        }))
    | inr (inr (e, h)) ↦ rw (h) f
  ]

  find-resolution_of :
      (now : ℕ) (api_key : GoString)
      → find_tenant_id_by_api_key db sum256 now api_key
        ≡ resolution_of (db now (hex_encode (sum256 api_key)))
  unfolding find_tenant_id_by_api_key hash_api_key
  find-resolution_of now api_key = elim (DbAnswer-cases (db now (hex_encode (sum256 api_key)))) [
    | inl (id, h) ↦ rw (find_tenant_id_by_api_key, hash_api_key, h)
    | inr (inl h) ↦ rw (find_tenant_id_by_api_key, hash_api_key, h)
    | inr (inr (e, h)) ↦ rw (find_tenant_id_by_api_key, hash_api_key, h)
  ]

  found :
      {clock : ℕ} (at : Moments) (api_key : GoString)
      → InOrder clock latency at
      → IsRecent at.looked_again api_key (resolution_of (db at.asked (hex_encode (sum256 api_key))))
  found at api_key o = record { asked = at.asked; recent = omega arith; answer = refl }

  flight_lem :
      (clock : ℕ) (at : Moments) (api_key : GoString) (c : Cache) (s : S)
      → InOrder clock latency at
      → IsFresh lru db ttl latency clock c
      → let r = flight lru allow db sum256 ttl at api_key c s in
        IsJustified at.looked_again api_key r.2 × IsFresh lru db ttl latency at.stored r.0
  unfolding flight
  flight_lem clock at api_key c s o f =
      let k = sum256 api_key in
      let f' = lookup_cache-IsFresh lru db ttl latency at.looked_again k c f in
      let now =
        IsFresh-later lru db ttl latency at.stored (lookup_cache lru at.looked_again k c).0
          (omega arith) f' in
      elim (Option-cases (lookup_cache lru at.looked_again k c).1) [
        | inl miss ↦ elim (Bool-cases (allow at.looked_again s).1) [
          | inl ok ↦
              rw (flight, miss, ok, find-resolution_of at.asked api_key)
                (
                  inr (found at api_key o),
                  remember-IsFresh at k (lookup_cache lru at.looked_again k c).0 clock o now,
                )
          | inr denied ↦ rw (flight, miss, denied) (inl refl, now)
        ]
        | inr (e, hit) ↦
            let (there, valid) = lookup_cache_hit lru db ttl latency at.looked_again k c e hit in
            rw (flight, hit)
              (inr (reply-IsRecent at.looked_again api_key e (f k e there) valid), now)
      ]

  earlier :
      {clock : ℕ} (at : Moments) (api_key : GoString)
      → InOrder clock latency at
      → (r : Resolution) → IsJustified at.looked_again api_key r
      → IsJustified at.looked api_key r
  earlier at api_key o r (inl limited) = inl limited
  earlier at api_key o r (inr i) =
      inr (record { asked = i.asked; recent = omega arith; answer = i.answer })

  -- A call of `ResolveTenantID` whose moments are in order, on a cache whose entries all repeat
  -- the database and are not from the future, answers that the key is missing exactly for the
  -- empty key; for any other key it answers that it is rate limited, or gives what the database
  -- answered for the key's hash at some moment, which is not longer before the first look at the
  -- cache than the latency and the time that such an answer is kept: the time to live of a
  -- tenant, or the shorter one of a rejected key. What it leaves in the cache again repeats the
  -- database, no entry for a passing failure.
  pub resolve_tenant_id-IsJustified :
      (clock : ℕ) (at : Moments) (api_key : GoString) (c : Cache) (s : S)
      → InOrder clock latency at
      → IsFresh lru db ttl latency clock c
      → let r = resolve_tenant_id lru allow db sum256 ttl at api_key c s in
        ((api_key ≡ []) × (r.2 ≡ rejected missing_api_key)
          ⊎ (api_key ≢ []) × IsJustified at.looked api_key r.2)
        × IsFresh lru db ttl latency at.stored r.0
  unfolding resolve_tenant_id
  resolve_tenant_id-IsJustified clock at [] c s o f =
      (inl (refl, refl), IsFresh-later lru db ttl latency at.stored c (omega arith) f)
  resolve_tenant_id-IsJustified clock at (b ∷ bs) c s o f =
      let k = sum256 (b ∷ bs) in
      let given : (b ∷ bs) ≢ [] = λ p. cc in
      let f' = lookup_cache-IsFresh lru db ttl latency at.looked k c f in
      elim (Option-cases (lookup_cache lru at.looked k c).1) [
        | inl miss ↦
            let (j, f'') = flight_lem clock at (b ∷ bs) (lookup_cache lru at.looked k c).0 s o f' in
            rw (resolve_tenant_id, miss) (inr (given, earlier at (b ∷ bs) o _ j), f'')
        | inr (e, hit) ↦
            let (there, valid) = lookup_cache_hit lru db ttl latency at.looked k c e hit in
            rw (resolve_tenant_id, hit)
              (
                inr (given, inr (reply-IsRecent at.looked (b ∷ bs) e (f k e there) valid)),
                IsFresh-later lru db ttl latency at.stored (lookup_cache lru at.looked k c).0
                    (omega arith) f',
              )
      ]

  resolution_of_tenant : (d : DbAnswer) (id : ℕ) → tenant id ≡ resolution_of d → d ≡ row id
  resolution_of_tenant (row i) id p = cc
  resolution_of_tenant no_rows id p = absurd (cc)
  resolution_of_tenant (db_error e) id p = absurd (cc)

  -- When the database has no tenant for the key's hash from the time `revoked` on, a call that
  -- looks at the cache later than the latency and the time to live after `revoked` gives no
  -- tenant for the key. (The moments of the call are in order, and the entries of the cache
  -- repeat the database.)
  pub resolve_tenant_id_revoked :
      (clock : ℕ) (at : Moments) (api_key : GoString) (c : Cache) (s : S) (revoked : ℕ)
      → InOrder clock latency at
      → IsFresh lru db ttl latency clock c
      → ((now id : ℕ) → revoked ≤ now → db now (hash_api_key db sum256 api_key) ≢ row id)
      → revoked + latency + ttl < at.looked
      → (id : ℕ) → (resolve_tenant_id lru allow db sum256 ttl at api_key c s).2 ≢ tenant id
  unfolding hash_api_key
  resolve_tenant_id_revoked clock at api_key c s revoked o f gone late id p =
      elim (resolve_tenant_id-IsJustified clock at api_key c s o f).0 [
        | inl (empty, missing) ↦ cc
        | inr (given, inl limited) ↦ cc
        | inr (given, inr i) ↦
            let answer = resolution_of_tenant _ id (sym p ∙ i.answer) in
            let recent : at.looked ≤ i.asked + latency + ttl =
              subst (λ r. at.looked ≤ i.asked + latency + patience r) p i.recent in
            gone i.asked id (omega arith) answer
      ]
