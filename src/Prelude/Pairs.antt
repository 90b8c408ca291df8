-- ===== src/Prelude/Pairs.antt =====
-- Pairs of keys are keys, compared by their first parts first.
use mathlib.Core.Path.{◌≡◌, ap, ap₂}
use mathlib.Core.Logic.{◌↔◌}
use mathlib.Core.Bool.{Bool, true, false, ◌&&◌}
use native.Mathlib.Omega.{arith}
use ingest.Prelude.Tests.{if◌then◌else◌}
use ingest.Prelude.Keys.{Key, nat_key, text_key}

module _ {ℓ κ} {K : Type ℓ} {L : Type κ} (k : Key K) (l : Key L) where
  abbrev pub pair_beq : K × L → K × L → Bool
  pair_beq (a, b) (c, d) = k.beq a c && l.beq b d

  abbrev pub pair_leb : K × L → K × L → Bool
  pair_leb (a, b) (c, d) = if k.beq a c then l.le b d else k.le a c

  pub pair_beq_iff : (p q : K × L) → (pair_beq p q ≡ true) ↔ (p ≡ q)
  pair_beq_iff (a, b) (c, d) = (forth, back)
    where
      forth : pair_beq (a, b) (c, d) ≡ true → ◌≡◌ {A = K × L} (a, b) (c, d)
      forth h =
          ap₂ (λ x y. (x, y)) ((k.beq_iff a c).0 (ground arith)) ((l.beq_iff b d).0 (ground arith))

      back : ◌≡◌ {A = K × L} (a, b) (c, d) → pair_beq (a, b) (c, d) ≡ true
      back e =
          ground (arith, (k.beq_iff a c).1 (ap (λ p. p.0) e), (l.beq_iff b d).1 (ap (λ p. p.1) e))

  pub pair_le_total : (p q : K × L) → pair_leb p q ≡ false → pair_leb q p ≡ true
  pair_le_total (a, b) (c, d) h =
      ground (arith, k.le_total a c, l.le_total b d, k.beq_iff a c, k.beq_iff c a)

  pub pair_le_trans :
      (p q r : K × L) → pair_leb p q ≡ true → pair_leb q r ≡ true → pair_leb p r ≡ true
  pair_le_trans (a, b) (c, d) (e, f) h g = ground (
    arith,
    k.le_trans a c e,
    l.le_trans b d f,
    k.beq_iff a c,
    k.beq_iff c e,
    k.beq_iff a e,
    k.le_antisymm a c,
    k.le_antisymm c e,
  )

  pub pair_le_antisymm : (p q : K × L) → pair_leb p q ≡ true → pair_leb q p ≡ true → p ≡ q
  pair_le_antisymm (a, b) (c, d) h g =
      ground (arith, k.le_antisymm a c, l.le_antisymm b d, k.beq_iff a c, k.beq_iff c a)

  abbrev pub pair_key : Key (K × L)
  pair_key = record {
    beq = pair_beq;
    le = pair_leb;
    beq_iff = pair_beq_iff;
    le_total = pair_le_total;
    le_trans = pair_le_trans;
    le_antisymm = pair_le_antisymm;
  }
