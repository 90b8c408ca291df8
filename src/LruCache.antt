-- ===== src/LruCache.antt =====
-- What the sources rely on of the cache of github.com/hashicorp/golang-lru: a bounded map that may
-- forget entries when one is added. `peek` is the entry that a `Get` would return.
use ingest.Prelude.{Option, nat_key, none, some, text_key, ◌≡◌, ◌≢◌, ◌⊎◌}

pub record Lru (K V Cache : Type 0) : Type 0 where
  pub get : K → Cache → Cache × Option V
  pub add : K → V → Cache → Cache
  pub remove : K → Cache → Cache
  pub peek : K → Cache → Option V
  pub get_value : (k : K) (c : Cache) → (get k c).1 ≡ peek k c
  pub get_keeps : (k j : K) (c : Cache) → peek j (get k c).0 ≡ peek j c
  pub add_self : (k : K) (v : V) (c : Cache) → peek k (add k v c) ≡ some v
  pub add_other :
      (k j : K) (v : V) (c : Cache)
      → j ≢ k
      → (peek j (add k v c) ≡ none) ⊎ (peek j (add k v c) ≡ peek j c)
  pub remove_self : (k : K) (c : Cache) → peek k (remove k c) ≡ none
  pub remove_other : (k j : K) (c : Cache) → j ≢ k → peek j (remove k c) ≡ peek j c
