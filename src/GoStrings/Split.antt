-- ===== src/GoStrings/Split.antt =====
-- Splitting at a byte, and joining again.
use mathlib.Core.List.{append-nil}
use ingest.Prelude.{
  All, Bool-cases, GoString, List, [], ap, append_assoc, arith, elem, elem-append, false, inl, inr,
  nat_beq, nat_key, refl, sym, text_key, ℕ, ◌++◌, ◌∙◌, ◌∷◌, ◌≡◌,
}
use ingest.GoStrings.{split_byte}

abbrev pub Lacks : ℕ → GoString → Type 0
Lacks sep s = elem sep s ≡ false

-- `strings.Join` with one byte between the parts
unfoldable pub join_byte : ℕ → List GoString → GoString
join_byte sep [] = []
join_byte sep (p ∷ []) = p
join_byte sep (p ∷ q ∷ ps) = p ++ (sep ∷ join_byte sep (q ∷ ps))

pub Lacks-append : (sep : ℕ) (s t : GoString) → Lacks sep (s ++ t) → Lacks sep s × Lacks sep t
Lacks-append sep s t h = ground (arith, elem-append sep s t)

pub Lacks-concat : (sep : ℕ) (s t : GoString) → Lacks sep s → Lacks sep t → Lacks sep (s ++ t)
Lacks-concat sep s t h k = ground (arith, elem-append sep s t)

-- No part holds the separator.
pub split_byte-Lacks :
    (sep : ℕ) (part s : GoString) → Lacks sep part → All (Lacks sep) (split_byte sep part s)
unfolding split_byte
split_byte-Lacks sep part [] h = (h, tt)
split_byte-Lacks sep part (c ∷ s) h = elim (Bool-cases (nat_beq c sep)) [
  | inl e ↦ rw (e, split_byte) (h, split_byte-Lacks sep [] s refl)
  | inr e ↦
      rw (e, split_byte)
        (split_byte-Lacks sep (part ++ c ∷ []) s (Lacks-concat sep part (c ∷ []) h (rw e)))
]

split_byte-append :
    (sep : ℕ) (part p rest : GoString)
    → Lacks sep p
    → split_byte sep part (p ++ rest) ≡ split_byte sep (part ++ p) rest
unfolding split_byte
split_byte-append sep part [] rest h = ap (λ x. split_byte sep x rest) (sym (append-nil part))
split_byte-append sep part (c ∷ p) rest h =
    let other : nat_beq c sep ≡ false = ground arith in
    rw (other, split_byte)
      (split_byte-append sep (part ++ c ∷ []) p rest (ground arith)
        ∙ ap (λ x. split_byte sep x rest) (append_assoc part (c ∷ []) p))

split_at_separator :
    (sep : ℕ) (part s : GoString) → split_byte sep part (sep ∷ s) ≡ part ∷ split_byte sep [] s
unfolding split_byte
split_at_separator sep part s = ground arith

-- Splitting what was joined gives the parts back.
pub split_byte-join_byte :
    (sep : ℕ) (p : GoString) (ps : List GoString)
    → All (Lacks sep) (p ∷ ps)
    → split_byte sep [] (join_byte sep (p ∷ ps)) ≡ p ∷ ps
unfolding join_byte
split_byte-join_byte sep p [] h =
    ap (split_byte sep []) (sym (append-nil p))
    ∙ split_byte-append sep [] p [] h.0
    ∙ unfold split_byte in refl
split_byte-join_byte sep p (q ∷ ps) h =
    split_byte-append sep [] p (sep ∷ join_byte sep (q ∷ ps)) h.0
    ∙ split_at_separator sep p (join_byte sep (q ∷ ps))
    ∙ ap (◌∷◌ p) (split_byte-join_byte sep q ps h.1)
