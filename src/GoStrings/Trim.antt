-- ===== src/GoStrings/Trim.antt =====
-- The ends of a text that `TrimSpace` leaves.
use mathlib.Core.List.{reverse, reverse_aux, reverse-append, reverse-reverse}
use ingest.Prelude.{
  All, GoString, List, Option, Option-cases, [], ap, append_assoc, arith, inl, inr, length, map,
  nat_key, none, refl, some, suc, sym, text_key, zero, ℕ, ◌++◌, ◌+◌, ◌<◌, ◌∙◌, ◌∷◌, ◌≡◌, ◌≤◌,
}
use ingest.GoStrings.{cut_any, cut_prefix, trim_prefixes, trim_space, white_space}

-- A text that neither begins nor ends with white space.
abbrev pub IsTrimmed : GoString → Type 0
IsTrimmed s =
    (cut_any white_space s ≡ none) × (cut_any (map reverse white_space) (reverse s) ≡ none)

cut_prefix-append :
    (s p t rest : GoString) → cut_prefix s p ≡ some rest → cut_prefix (s ++ t) p ≡ some (rest ++ t)
unfolding cut_prefix
cut_prefix-append s [] t rest h =
    ap (λ (o : Option GoString). elim o [ none ↦ none | some r ↦ some (r ++ t) ]) h
cut_prefix-append [] (p ∷ ps) t rest h = cc
cut_prefix-append (c ∷ s) (p ∷ ps) t rest h = ground (arith, cut_prefix-append s ps t rest)

-- A prefix has no first prefix if the whole has none.
cut_any-append :
    (ps : List GoString) (s t : GoString) → cut_any ps (s ++ t) ≡ none → cut_any ps s ≡ none
unfolding cut_any
cut_any-append [] s t h = refl
cut_any-append (p ∷ ps) s t h = elim (Option-cases (cut_prefix s p)) [
  | inl e ↦ rw (e, cut_any) (cut_any-append ps s t (ground arith))
  | inr (r, e) ↦ cc (h, cut_prefix-append s p t r e)
]

length-cut_prefix :
    (s p rest : GoString) → cut_prefix s p ≡ some rest → length s ≡ length p + length rest
unfolding cut_prefix
length-cut_prefix s [] rest h = ground arith
length-cut_prefix [] (p ∷ ps) rest h = cc
length-cut_prefix (c ∷ s) (p ∷ ps) rest h = ground (arith, length-cut_prefix s ps rest)

cut_prefix_suffix : (s p rest : GoString) → cut_prefix s p ≡ some rest → s ≡ p ++ rest
unfolding cut_prefix
cut_prefix_suffix s [] rest h = ground arith
cut_prefix_suffix [] (p ∷ ps) rest h = cc
cut_prefix_suffix (c ∷ s) (p ∷ ps) rest h = ground (arith, cut_prefix_suffix s ps rest)

abbrev AreNonempty : List GoString → Type 0
AreNonempty = All (λ p. 0 < length p)

cut_any_shorter :
    (ps : List GoString) (s : GoString) {rest : GoString}
    → AreNonempty ps
    → cut_any ps s ≡ some rest
    → (length rest < length s) × ((p : GoString) × (s ≡ p ++ rest))
unfolding cut_any
cut_any_shorter [] s n h = cc
cut_any_shorter (p ∷ ps) s {rest} n h = elim (Option-cases (cut_prefix s p)) [
  | inl e ↦ cut_any_shorter ps s n.1 (ground arith)
  | inr (r, e) ↦
      let same : r ≡ rest = ground arith in
      rw (← same) (omega (arith, length-cut_prefix s p r e, n.0), (p, cut_prefix_suffix s p r e))
]

length-reverse_aux : (s acc : GoString) → length (reverse_aux s acc) ≡ length s + length acc
length-reverse_aux [] acc = omega arith
length-reverse_aux (c ∷ s) acc = omega (arith, length-reverse_aux s (c ∷ acc))

length-reverse : (s : GoString) → length (reverse s) ≡ length s
length-reverse s = omega (arith, length-reverse_aux s [])

trim_prefixes-none :
    (ps : List GoString) (fuel : ℕ) (s : GoString)
    → AreNonempty ps
    → length s ≤ fuel
    → cut_any ps (trim_prefixes ps fuel s) ≡ none
unfolding trim_prefixes
trim_prefixes-none ps zero s n h = elim (Option-cases (cut_any ps s)) [
  | inl e ↦ e
  | inr (r, e) ↦ absurd (omega (arith, (cut_any_shorter ps s n e).0))
]
trim_prefixes-none ps (suc fuel) s n h = elim (Option-cases (cut_any ps s)) [
  | inl e ↦ rw (e, trim_prefixes) e
  | inr (r, e) ↦
      rw (e, trim_prefixes)
        (trim_prefixes-none ps fuel r n (omega (arith, (cut_any_shorter ps s n e).0)))
]

trim_prefixes_suffix :
    (ps : List GoString) (fuel : ℕ) (s : GoString)
    → AreNonempty ps
    → (p : GoString) × (s ≡ p ++ trim_prefixes ps fuel s)
unfolding trim_prefixes
trim_prefixes_suffix ps zero s n = ([], refl)
trim_prefixes_suffix ps (suc fuel) s n = elim (Option-cases (cut_any ps s)) [
  | inl e ↦ rw (e, trim_prefixes) ([], refl)
  | inr (r, e) ↦
      let (p, whole) = (cut_any_shorter ps s n e).1 in
      let (q, part) = trim_prefixes_suffix ps fuel r n in
      rw (e, trim_prefixes)
        (p ++ q, whole ∙ ap (λ x. p ++ x) part ∙ sym (append_assoc p q (trim_prefixes ps fuel r)))
]

trim_prefixes-eq :
    (ps : List GoString) (fuel : ℕ) (s : GoString)
    → cut_any ps s ≡ none
    → trim_prefixes ps fuel s ≡ s
unfolding trim_prefixes
trim_prefixes-eq ps zero s h = refl
trim_prefixes-eq ps (suc fuel) s h = rw (h, trim_prefixes)

white_space-AreNonempty : AreNonempty white_space
white_space-AreNonempty = omega arith

reversed-AreNonempty : AreNonempty (map reverse white_space)
reversed-AreNonempty = omega arith

pub trim_space-IsTrimmed : (s : GoString) → IsTrimmed (trim_space s)
unfolding trim_space
trim_space-IsTrimmed s =
    let t = trim_prefixes white_space (length s) s in
    let u = trim_prefixes (map reverse white_space) (length t) (reverse t) in
    let (p, cut) =
      trim_prefixes_suffix (map reverse white_space) (length t) (reverse t) reversed-AreNonempty in
    let whole : t ≡ reverse u ++ reverse p =
      sym (reverse-reverse t) ∙ ap reverse cut ∙ reverse-append p u in
    (
      cut_any-append white_space (reverse u) (reverse p) (
          ap (cut_any white_space) (sym whole)
          ∙ trim_prefixes-none white_space (length s) s white_space-AreNonempty (omega arith)),
      ap (cut_any (map reverse white_space)) (reverse-reverse u)
          ∙ trim_prefixes-none (map reverse white_space) (length t) (reverse t) reversed-AreNonempty
              (omega (arith, length-reverse t)),
    )

-- A text with no white space at its ends is left as it is.
pub trim_space-eq : (s : GoString) → IsTrimmed s → trim_space s ≡ s
unfolding trim_space
trim_space-eq s h =
    let front = trim_prefixes-eq white_space (length s) s h.0 in
    ap (λ (t : GoString). reverse (trim_prefixes (map reverse white_space) (length t) (reverse t)))
      front
    ∙ ap reverse (trim_prefixes-eq (map reverse white_space) (length s) (reverse s) h.1)
    ∙ reverse-reverse s

-- What is left is a part of the text.
pub trim_space_infix :
    (s : GoString) → (p : GoString) × (q : GoString) × (s ≡ p ++ (trim_space s ++ q))
unfolding trim_space
trim_space_infix s =
    let t = trim_prefixes white_space (length s) s in
    let u = trim_prefixes (map reverse white_space) (length t) (reverse t) in
    let (p, front) = trim_prefixes_suffix white_space (length s) s white_space-AreNonempty in
    let (q, back) =
      trim_prefixes_suffix (map reverse white_space) (length t) (reverse t) reversed-AreNonempty in
    let whole : t ≡ reverse u ++ reverse q =
      sym (reverse-reverse t) ∙ ap reverse back ∙ reverse-append q u in
    (p, reverse q, front ∙ ap (λ x. p ++ x) whole)
