-- ===== src/Prelude/Keys.antt =====
-- Types with a decidable equality and a total order (Go's `cmp.Ordered`), and membership by that
-- equality.
use Prim.Native.Nat.{ℕ}
use mathlib.Core.Path.{◌≡◌, refl}
use mathlib.Core.Logic.{◌↔◌, inl, inr}
use mathlib.Core.Bool.{Bool, true, false, ◌||◌}
use mathlib.Core.List.{List, [], ◌∷◌, ◌++◌}
use native.Mathlib.Omega.{arith}
use ingest.Prelude.Tests.{ltb, leb, nat_beq, nat_beq_iff, if◌then◌else◌, Bool-cases}
use ingest.Prelude.Text.{GoString}

pub record Key {ℓ} (K : Type ℓ) : Type ℓ where
  pub beq : K → K → Bool
  pub le : K → K → Bool
  pub beq_iff : (a b : K) → (beq a b ≡ true) ↔ (a ≡ b)
  pub le_total : (a b : K) → le a b ≡ false → le b a ≡ true
  pub le_trans : (a b c : K) → le a b ≡ true → le b c ≡ true → le a c ≡ true
  pub le_antisymm : (a b : K) → le a b ≡ true → le b a ≡ true → a ≡ b

infix 50 ◌==◌ ◌⊑◌
abbrev pub ◌==◌ {ℓ} : {K : Type ℓ} ⦃k : Key K⦄ → K → K → Bool
◌==◌ ⦃k⦄ = k.beq

abbrev pub ◌⊑◌ {ℓ} : {K : Type ℓ} ⦃k : Key K⦄ → K → K → Bool
◌⊑◌ ⦃k⦄ = k.le

pub nat_le_total : (a b : ℕ) → leb a b ≡ false → leb b a ≡ true
nat_le_total a b h = ground arith

pub nat_le_trans : (a b c : ℕ) → leb a b ≡ true → leb b c ≡ true → leb a c ≡ true
nat_le_trans a b c h k = ground arith

pub nat_le_antisymm : (a b : ℕ) → leb a b ≡ true → leb b a ≡ true → a ≡ b
nat_le_antisymm a b h k = ground arith

instance abbrev pub nat_key : Key ℕ
nat_key = record {
  beq = nat_beq;
  le = leb;
  beq_iff = nat_beq_iff;
  le_total = nat_le_total;
  le_trans = nat_le_trans;
  le_antisymm = nat_le_antisymm;
}

-- Go compares strings byte by byte.
unfoldable pub text_beq : GoString → GoString → Bool
text_beq [] [] = true
text_beq [] (_ ∷ _) = false
text_beq (_ ∷ _) [] = false
text_beq (x ∷ xs) (y ∷ ys) = if nat_beq x y then text_beq xs ys else false

unfoldable pub text_leb : GoString → GoString → Bool
text_leb [] _ = true
text_leb (_ ∷ _) [] = false
text_leb (x ∷ xs) (y ∷ ys) = if nat_beq x y then text_leb xs ys else ltb x y

text_beq_sound : (s t : GoString) → text_beq s t ≡ true → s ≡ t
unfolding text_beq
text_beq_sound [] [] h = refl
text_beq_sound [] (_ ∷ _) h = cc
text_beq_sound (_ ∷ _) [] h = cc
text_beq_sound (x ∷ xs) (y ∷ ys) h = ground (arith, text_beq_sound xs ys)

text_beq_refl : (s : GoString) → text_beq s s ≡ true
unfolding text_beq
text_beq_refl [] = refl
text_beq_refl (x ∷ xs) = ground (arith, text_beq_refl xs)

pub text_beq_iff : (s t : GoString) → (text_beq s t ≡ true) ↔ (s ≡ t)
text_beq_iff s t = (text_beq_sound s t, λ e. rw e (text_beq_refl t))

pub text_le_total : (s t : GoString) → text_leb s t ≡ false → text_leb t s ≡ true
unfolding text_leb
text_le_total [] [] h = refl
text_le_total [] (_ ∷ _) h = cc
text_le_total (_ ∷ _) [] h = refl
text_le_total (x ∷ xs) (y ∷ ys) h = ground (arith, text_le_total xs ys)

pub text_le_trans :
    (s t u : GoString) → text_leb s t ≡ true → text_leb t u ≡ true → text_leb s u ≡ true
unfolding text_leb
text_le_trans [] t u h k = refl
text_le_trans (_ ∷ _) [] u h k = cc
text_le_trans (x ∷ xs) (y ∷ ys) [] h k = cc
text_le_trans (x ∷ xs) (y ∷ ys) (z ∷ zs) h k = ground (arith, text_le_trans xs ys zs)

pub text_le_antisymm : (s t : GoString) → text_leb s t ≡ true → text_leb t s ≡ true → s ≡ t
unfolding text_leb
text_le_antisymm [] [] h k = refl
text_le_antisymm [] (_ ∷ _) h k = cc
text_le_antisymm (_ ∷ _) [] h k = cc
text_le_antisymm (x ∷ xs) (y ∷ ys) h k = ground (arith, text_le_antisymm xs ys)

instance abbrev pub text_key : Key GoString
text_key = record {
  beq = text_beq;
  le = text_leb;
  beq_iff = text_beq_iff;
  le_total = text_le_total;
  le_trans = text_le_trans;
  le_antisymm = text_le_antisymm;
}

module _ {ℓ} {K : Type ℓ} ⦃k : Key K⦄ where
  pub Key-refl : (a : K) → (a == a) ≡ true
  Key-refl a = (k.beq_iff a a).1 refl

  pub Key-sound : (a b : K) → (a == b) ≡ true → a ≡ b
  Key-sound a b = (k.beq_iff a b).0

  pub Key-false : (a b : K) → (a == b) ≡ false → ¬ (a ≡ b)
  Key-false a b h e = cc ((k.beq_iff a b).1 e)

  pub le_refl : (a : K) → (a ⊑ a) ≡ true
  le_refl a = elim (Bool-cases (a ⊑ a)) [ inl h ↦ h | inr h ↦ k.le_total a a h ]

  abbrev pub elem : K → List K → Bool
  elem a [] = false
  elem a (x ∷ xs) = if x == a then true else elem a xs

  pub elem-append : (a : K) (xs ys : List K) → elem a (xs ++ ys) ≡ (elem a xs || elem a ys)
  elem-append a [] ys = refl
  elem-append a (x ∷ xs) ys = ground (arith, elem-append a xs ys)

  abbrev pub Distinct : List K → Type 0
  Distinct [] = Unit
  Distinct (x ∷ xs) = (elem x xs ≡ false) × Distinct xs
