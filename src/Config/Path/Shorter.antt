-- ===== src/Config/Path/Shorter.antt =====
-- The directory of a path below the root is a shorter one.
use mathlib.Core.List.{reverse, reverse_aux}
use ingest.Prelude.{
  Bool, Bool-cases, GoString, List, [], ap, arith, inl, inr, length, length-append, lit, nat_beq,
  nat_beq_iff, nat_key, refl, suc, text_beq, text_key, true, ℕ, ◌++◌, ◌+◌, ◌<◌, ◌∙◌, ◌∷◌, ◌≡◌, ◌≤◌,
  ◌⊎◌,
}
use ingest.GoStrings.{split_byte}
use ingest.GoStrings.Split.{join_byte}
use ingest.Config.Path.{clean, clean_element, clean_elements, dir_of, dir_prefix}

-- the bytes of parts with a separator behind each, and how many parts are empty
weight : List GoString → ℕ
weight [] = 0
weight (p ∷ ps) = suc (length p) + weight ps

blanks : List GoString → ℕ
blanks [] = 0
blanks ([] ∷ ps) = suc (blanks ps)
blanks ((_ ∷ _) ∷ ps) = blanks ps

weight-split_byte :
    (part s : GoString) → weight (split_byte 47 part s) ≡ suc (length part + length s)
unfolding weight split_byte
weight-split_byte part [] = omega arith
weight-split_byte part (c ∷ s) = elim (Bool-cases (nat_beq c 47)) [
  | inl e ↦ rw (e, split_byte) (omega (arith, weight-split_byte [] s))
  | inr e ↦
      rw (e, split_byte)
        (omega (arith, weight-split_byte (part ++ c ∷ []) s, length-append part (c ∷ [])))
]

weight-clean_element :
    (rooted : Bool) (stack : List GoString) (part : GoString)
    → weight (clean_element rooted stack part) + blanks (part ∷ [])
      ≤ weight stack + weight (part ∷ [])
unfolding weight blanks clean_element text_beq lit
weight-clean_element rooted stack [] = omega arith
weight-clean_element rooted [] (c ∷ p) = ground arith
weight-clean_element rooted (top ∷ below) (c ∷ p) = ground arith

blanks_cons :
    (part : GoString) (parts : List GoString)
    → blanks (part ∷ parts) ≡ blanks (part ∷ []) + blanks parts
unfolding blanks
blanks_cons [] parts = omega arith
blanks_cons (c ∷ p) parts = omega arith

weight-clean_elements :
    (rooted : Bool) (stack parts : List GoString)
    → weight (clean_elements rooted stack parts) + blanks parts ≤ weight stack + weight parts
unfolding clean_elements weight
weight-clean_elements rooted stack [] = unfold blanks in omega arith
weight-clean_elements rooted stack (part ∷ parts) = omega (
  arith,
  weight-clean_elements rooted (clean_element rooted stack part) parts,
  weight-clean_element rooted stack part,
  blanks_cons part parts,
)

length-join_byte :
    (p : GoString) (ps : List GoString) → suc (length (join_byte 47 (p ∷ ps))) ≡ weight (p ∷ ps)
unfolding join_byte weight
length-join_byte p [] = omega arith
length-join_byte p (q ∷ ps) =
    omega (arith, length-join_byte q ps, length-append p (47 ∷ join_byte 47 (q ∷ ps)))

weight-reverse_aux : (ps acc : List GoString) → weight (reverse_aux ps acc) ≡ weight ps + weight acc
unfolding weight
weight-reverse_aux [] acc = omega arith
weight-reverse_aux (p ∷ ps) acc = omega (arith, weight-reverse_aux ps (p ∷ acc))

weight-reverse : (ps : List GoString) → weight (reverse ps) ≡ weight ps
unfolding weight
weight-reverse ps = omega (arith, weight-reverse_aux ps [])

rooted_text :
    (ps : List GoString) → (join_byte 47 ps ≡ []) ⊎ (suc (length (join_byte 47 ps)) ≡ weight ps)
rooted_text [] = inl (unfold join_byte in refl)
rooted_text (p ∷ ps) = inr (length-join_byte p ps)

-- A rooted path is cleaned to the root, or loses a byte for each empty element.
length-clean :
    (s : GoString)
    → (clean (47 ∷ s) ≡ 47 ∷ [])
      ⊎ (length (clean (47 ∷ s)) + blanks (split_byte 47 [] (47 ∷ s)) ≤ length s + 2)
unfolding clean
length-clean s =
    let stack = clean_elements true [] (split_byte 47 [] (47 ∷ s)) in
    elim (rooted_text (reverse stack)) [
      | inl e ↦ inl (ap (◌∷◌ 47) e)
      | inr e ↦ inr (
          omega (
            arith,
            e,
            weight-reverse stack,
            weight-clean_elements true [] (split_byte 47 [] (47 ∷ s)),
            weight-split_byte [] (47 ∷ s),
            empty_weight,
          ))
    ]
  where
    empty_weight : weight [] ≡ 0
    empty_weight = unfold weight in refl

blanks_at_end : (part r : GoString) → 1 ≤ blanks (split_byte 47 part (r ++ 47 ∷ []))
unfolding split_byte blanks
blanks_at_end part [] = ground (arith, blanks_cons part ([] ∷ []))
blanks_at_end part (c ∷ r) = elim (Bool-cases (nat_beq c 47)) [
  | inl e ↦
      rw (e, split_byte)
        (omega (arith, blanks_cons part (split_byte 47 [] (r ++ 47 ∷ [])), blanks_at_end [] r))
  | inr e ↦ rw (e, split_byte) (blanks_at_end (part ++ c ∷ []) r)
]

blanks_at_both : (r : GoString) → 2 ≤ blanks (split_byte 47 [] (47 ∷ (r ++ 47 ∷ [])))
unfolding split_byte blanks
blanks_at_both r = omega (arith, blanks_at_end [] r)

dir_prefix-cases :
    (s : GoString)
    → (dir_prefix s ≡ [])
      ⊎ ((r : GoString) × (dir_prefix s ≡ r ++ 47 ∷ []) × (length (r ++ 47 ∷ []) ≤ length s))
unfolding dir_prefix
dir_prefix-cases [] = inl refl
dir_prefix-cases (c ∷ s) = elim (dir_prefix-cases s) [
  | inl e ↦ elim (Bool-cases (nat_beq c 47)) [
    | inl slash ↦
        rw (e, slash, dir_prefix)
          (inr ([], ap (λ x. x ∷ []) ((nat_beq_iff c 47).0 slash), omega arith))
    | inr other ↦ rw (e, other, dir_prefix) (inl refl)
  ]
  | inr ([], e, h) ↦ rw (e, dir_prefix) (inr (c ∷ [], refl, omega arith))
  | inr (b ∷ r, e, h) ↦ rw (e, dir_prefix) (inr (c ∷ b ∷ r, refl, omega arith))
]

one_slash : clean (47 ∷ []) ≡ 47 ∷ []
unfolding clean text_beq lit
one_slash = refl

clean-rooted : (s : GoString) → (t : GoString) × (clean (47 ∷ s) ≡ 47 ∷ t)
unfolding clean
clean-rooted s = (_, refl)

dir_prefix-rooted :
    (s : GoString)
    → (dir_prefix (47 ∷ s) ≡ 47 ∷ [])
      ⊎ ((r : GoString) × (dir_prefix (47 ∷ s) ≡ 47 ∷ (r ++ 47 ∷ []))
          × (length (r ++ 47 ∷ []) ≤ length s))
unfolding dir_prefix
dir_prefix-rooted s = elim (dir_prefix-cases s) [
  | inl e ↦ inl (rw (e, dir_prefix))
  | inr ([], e, h) ↦ inr ([], rw (e, dir_prefix), h)
  | inr (b ∷ r, e, h) ↦ inr (b ∷ r, rw (e, dir_prefix), h)
]

dir_of-eq : (path : GoString) → dir_of path ≡ clean (dir_prefix path)
unfolding dir_of
dir_of-eq path = refl

-- The directory of a rooted path is rooted.
pub dir_of-rooted : (s : GoString) → (t : GoString) × (dir_of (47 ∷ s) ≡ 47 ∷ t)
dir_of-rooted s = elim (dir_prefix-rooted s) [
  | inl e ↦ ([], dir_of-eq (47 ∷ s) ∙ ap clean e ∙ one_slash)
  | inr (r, e, h) ↦
      let (t, rooted) = clean-rooted (r ++ 47 ∷ []) in (t, dir_of-eq (47 ∷ s) ∙ ap clean e ∙ rooted)
]

-- The directory of a rooted path is the path itself, or a shorter one.
pub dir_of_shorter :
    (s : GoString) → (dir_of (47 ∷ s) ≡ 47 ∷ s) ⊎ (length (dir_of (47 ∷ s)) < length (47 ∷ s))
dir_of_shorter [] =
    let root : dir_prefix (47 ∷ []) ≡ 47 ∷ [] = unfold dir_prefix in refl in
    inl (dir_of-eq (47 ∷ []) ∙ ap clean root ∙ one_slash)
dir_of_shorter (c ∷ s) = elim (dir_prefix-rooted (c ∷ s)) [
  | inl e ↦ inr (rw (dir_of-eq (47 ∷ c ∷ s) ∙ ap clean e ∙ one_slash) (omega arith))
  | inr (r, e, h) ↦ inr (
      rw (dir_of-eq (47 ∷ c ∷ s) ∙ ap clean e) (elim (length-clean (r ++ 47 ∷ [])) [
        | inl root ↦ rw root (omega arith)
        | inr short ↦ omega (arith, short, blanks_at_both r, h)
      ]))
]
