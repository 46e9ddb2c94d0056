-- ===== src/Web/Counting.antt =====
-- Natural numbers in place of the `double` of src/include/web/caculate.h, for runs of the search.
use serach_engine.Base.{ℕ, ◌+◌, ◌*◌, ◌/◌, ◌≡◌, true, false, ltb, arith}
use serach_engine.Web.Double.{Double}

pub greater_asym : (x y : ℕ) → ltb y x ≡ true → ltb x y ≡ false
greater_asym x y h = ground arith

pub greater_trans : (x y z : ℕ) → ltb y x ≡ true → ltb z y ≡ true → ltb z x ≡ true
greater_trans x y z h k = ground arith

abbrev pub counting : Double
counting = record {
  Carrier = ℕ;
  of_nat = λ n. n;
  plus = λ x y. x + y;
  times = λ x y. x * y;
  over = λ x y. x / y;
  log2 = λ x. x;
  sqrt = λ x. x;
  greater = λ x y. ltb y x;
  greater_asym = greater_asym;
  greater_trans = greater_trans;
}
