-- ===== src/Web/Double.antt =====
-- `double`, as far as the page search uses it: a type with its operations and the laws of its
-- order on numbers that are not NaN. Nothing is assumed of rounding.
use serach_engine.Base.{ℕ, ◌≡◌, Bool, true, false}

pub record Double : Type 1 where
  pub Carrier : Type 0
  pub of_nat : ℕ → Carrier
  pub plus : Carrier → Carrier → Carrier
  pub times : Carrier → Carrier → Carrier
  pub over : Carrier → Carrier → Carrier
  pub log2 : Carrier → Carrier
  pub sqrt : Carrier → Carrier
  pub greater : Carrier → Carrier → Bool
  pub greater_asym : (x y : Carrier) → greater x y ≡ true → greater y x ≡ false
  pub greater_trans :
      (x y z : Carrier) → greater x y ≡ true → greater y z ≡ true → greater x z ≡ true
