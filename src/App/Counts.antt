-- ===== src/App/Counts.antt =====
-- How often a trace of the service opens and closes a handle.
use ingest.Prelude.{
  List, [], arith, if◌then◌else◌, nat_key, refl, suc, text_key, ℕ, ◌++◌, ◌+◌, ◌∷◌, ◌≡◌,
}
use ingest.App.{Event, Handle, closed, ensured, handle_beq, opened}
use ingest.App.Ingest.{each}

module _ (h : Handle) where
  abbrev pub occurs : List Handle → ℕ
  occurs [] = 0
  occurs (x ∷ xs) = if handle_beq x h then suc (occurs xs) else occurs xs

  -- how often the trace opens, and closes, the handle
  abbrev pub opens : List Event → ℕ
  opens [] = 0
  opens (opened x ∷ t) = if handle_beq x h then suc (opens t) else opens t
  opens (closed x ∷ t) = opens t
  opens (ensured specs ∷ t) = opens t

  abbrev pub closes : List Event → ℕ
  closes [] = 0
  closes (closed x ∷ t) = if handle_beq x h then suc (closes t) else closes t
  closes (opened x ∷ t) = closes t
  closes (ensured specs ∷ t) = closes t

  pub occurs-append : (xs ys : List Handle) → occurs (xs ++ ys) ≡ occurs xs + occurs ys
  occurs-append [] ys = omega arith
  occurs-append (x ∷ xs) ys = ground (arith, occurs-append xs ys)

  pub opens-append : (s t : List Event) → opens (s ++ t) ≡ opens s + opens t
  opens-append [] t = omega arith
  opens-append (opened x ∷ s) t = ground (arith, opens-append s t)
  opens-append (closed x ∷ s) t = opens-append s t
  opens-append (ensured specs ∷ s) t = opens-append s t

  pub closes-append : (s t : List Event) → closes (s ++ t) ≡ closes s + closes t
  closes-append [] t = omega arith
  closes-append (closed x ∷ s) t = ground (arith, closes-append s t)
  closes-append (opened x ∷ s) t = closes-append s t
  closes-append (ensured specs ∷ s) t = closes-append s t

  pub opens-each :
      (hs : List Handle) → (opens (each opened hs) ≡ occurs hs) × (closes (each opened hs) ≡ 0)
  opens-each [] = (refl, refl)
  opens-each (x ∷ hs) = ground (arith, opens-each hs)

  pub closes-each :
      (hs : List Handle) → (closes (each closed hs) ≡ occurs hs) × (opens (each closed hs) ≡ 0)
  closes-each [] = (refl, refl)
  closes-each (x ∷ hs) = ground (arith, closes-each hs)
