-- ===== src/Auth/Fresh.antt =====
-- The cache of the authenticator: what an entry says was true of the database not long ago.
use ingest.Prelude.{
  Bool-cases, GoString, Option, Option-cases, ap, arith, inl, inr, ltb, nat_key, none, some, sym,
  text_key, ℕ, ◌+◌, ◌==◌, ◌∙◌, ◌≡◌, ◌≤◌, ◌⊎◌,
}
use ingest.Prelude.Digits.{hex_encode}
use ingest.LruCache.{Lru}
use mathlib.Core.Path.{subst}
use ingest.Auth.{
  AuthError, CacheEntry, DbAnswer, invalid_api_key, lookup_cache, negative_cache_ttl, reply,
  resolution_of,
}

-- How long an entry is kept: `ttl`, or the time of a rejected key.
abbrev pub ttl_of : ℕ → Option AuthError → ℕ
ttl_of ttl none = ttl
ttl_of ttl (some _) = negative_cache_ttl

module _ {Cache : Type 0} (lru : Lru GoString CacheEntry Cache) (db : ℕ → GoString → DbAnswer)
    (ttl latency : ℕ) where
  -- The entry repeats what the database answered for the key at `asked`, was stored at most
  -- `latency` later and not in the future, expires when its time is over, and is no passing failure.
  pub record IsEntry (clock : ℕ) (cache_key : GoString) (e : CacheEntry) : Type 0 where
    pub asked : ℕ
    pub stored : ℕ
    pub after : asked ≤ stored
    pub prompt : stored ≤ asked + latency
    pub past : stored ≤ clock
    pub expires : e.expires_at ≡ stored + ttl_of ttl e.err
    pub answer : reply e ≡ resolution_of (db asked (hex_encode cache_key))
    pub lasting : (e.err ≡ none) ⊎ (e.err ≡ some invalid_api_key)

  abbrev pub IsFresh : ℕ → Cache → Type 0
  IsFresh clock cache =
      (k : GoString) (e : CacheEntry) → lru.peek k cache ≡ some e → IsEntry clock k e

  IsEntry-later :
      {clock : ℕ} (now : ℕ) {k : GoString} {e : CacheEntry}
      → clock ≤ now
      → IsEntry clock k e
      → IsEntry now k e
  IsEntry-later now h i = record {
    asked = i.asked;
    stored = i.stored;
    after = i.after;
    prompt = i.prompt;
    past = omega arith;
    expires = i.expires;
    answer = i.answer;
    lasting = i.lasting;
  }

  pub IsFresh-later :
      {clock : ℕ} (now : ℕ) (c : Cache) → clock ≤ now → IsFresh clock c → IsFresh now c
  IsFresh-later now c h f k e p = IsEntry-later now h (f k e p)

  get-IsFresh :
      {clock : ℕ} (k : GoString) (c : Cache) → IsFresh clock c → IsFresh clock (lru.get k c).0
  get-IsFresh k c f j e p = f j e (sym (lru.get_keeps k j c) ∙ p)

  remove-IsFresh :
      {clock : ℕ} (k : GoString) (c : Cache) → IsFresh clock c → IsFresh clock (lru.remove k c)
  remove-IsFresh k c f j e p = elim (Bool-cases (j == k)) [
    | inl q ↦
        let same = (text_key.beq_iff j k).0 q in
        absurd (cc (lru.remove_self k c, ap (λ x. lru.peek x (lru.remove k c)) same, p))
    | inr q ↦ f j e (sym (lru.remove_other k j c (λ s. cc ((text_key.beq_iff j k).1 s, q))) ∙ p)
  ]

  pub add-IsFresh :
      {clock : ℕ} (k : GoString) (e : CacheEntry) (c : Cache)
      → IsFresh clock c
      → IsEntry clock k e
      → IsFresh clock (lru.add k e c)
  add-IsFresh {clock} k e c f i j e' p = elim (Bool-cases (j == k)) [
    | inl q ↦
        let same = (text_key.beq_iff j k).0 q in
        let eq : e ≡ e' = cc (lru.add_self k e c, ap (λ x. lru.peek x (lru.add k e c)) same, p) in
        subst (λ x. IsEntry clock x e') (sym same) (subst (IsEntry clock k) eq i)
    | inr q ↦ elim (lru.add_other k j e c (λ s. cc ((text_key.beq_iff j k).1 s, q))) [
      | inl gone ↦ absurd (cc)
      | inr kept ↦ f j e' (sym kept ∙ p)
    ]
  ]

  pub lookup_cache-IsFresh :
      {clock : ℕ} (now : ℕ) (k : GoString) (c : Cache)
      → IsFresh clock c
      → IsFresh clock (lookup_cache lru now k c).0
  unfolding lookup_cache
  lookup_cache-IsFresh now k c f = elim (Option-cases (lru.get k c).1) [
    | inl e ↦ rw (e, lookup_cache) (get-IsFresh k c f)
    | inr (e, h) ↦ elim (Bool-cases (ltb e.expires_at now)) [
      | inl late ↦ rw (h, late, lookup_cache) (remove-IsFresh k (lru.get k c).0 (get-IsFresh k c f))
      | inr valid ↦ rw (h, valid, lookup_cache) (get-IsFresh k c f)
    ]
  ]

  -- A hit is an entry of the cache that has not expired.
  pub lookup_cache_hit :
      (now : ℕ) (k : GoString) (c : Cache) (e : CacheEntry)
      → (lookup_cache lru now k c).1 ≡ some e
      → (lru.peek k c ≡ some e) × (now ≤ e.expires_at)
  unfolding lookup_cache
  lookup_cache_hit now k c e h = ground (arith, lru.get_value k c)
