-- ===== src/Streams/Decimal.antt =====
-- The decimal digits of a number.
use serach_engine.Base.{
  ℕ, zero, suc, ◌+◌, ◌-◌, ◌*◌, ◌/◌, ◌%◌, ◌<◌, ◌≡◌, ap, ◌∙◌, Text, Bool, true, ◌&&◌, List, [], ◌∷◌,
  ◌++◌, All, if◌then◌else◌, leb, ltb, arith, Bool-cases, inl, inr, ◌≢◌,
}

-- On fuel: a number has fewer digits than its successor.
digits : ℕ → ℕ → Text → Text
digits zero n acc = acc
digits (suc fuel) n acc =
    let rest = digits fuel (n / 10) ((48 + n % 10) ∷ acc) in
    if ltb n 10 then (48 + n) ∷ acc else rest

-- `<<` of a number that is not negative.
unfoldable pub print_nat : ℕ → Text
unfolding digits
print_nat n = digits (suc n) n []

unfoldable pub is_digit : ℕ → Bool
is_digit c = leb 48 c && leb c 57

-- The number that a run of digits stands for.
unfoldable pub value : ℕ → Text → ℕ
value v [] = v
value v (c ∷ s) = value (v * 10 + (c - 48)) s

value-digits : (fuel n : ℕ) (acc : Text) → n < fuel → value 0 (digits fuel n acc) ≡ value n acc
unfolding digits value
value-digits zero n acc h = absurd (omega arith)
value-digits (suc f) n acc h = elim (Bool-cases (ltb n 10)) [
  | inl small ↦
      let e : 0 * 10 + (48 + n - 48) ≡ n = omega arith in rw small (ap (λ (v : ℕ). value v acc) e)
  | inr large ↦
      let e : n / 10 * 10 + (48 + n % 10 - 48) ≡ n = omega arith in
      rw large (
        value-digits f (n / 10) ((48 + n % 10) ∷ acc) (ground arith)
        ∙ ap (λ (v : ℕ). value v acc) e)
]

-- The digits stand for the number.
pub value-print_nat : (n : ℕ) → value 0 (print_nat n) ≡ n
unfolding print_nat value
value-print_nat n = value-digits (suc n) n [] (omega arith)

abbrev pub IsDigits : Text → Type 0
IsDigits = All (λ c. is_digit c ≡ true)

digits-IsDigits : (fuel n : ℕ) (acc : Text) → IsDigits acc → IsDigits (digits fuel n acc)
unfolding digits is_digit
digits-IsDigits zero n acc h = h
digits-IsDigits (suc f) n acc h = elim (Bool-cases (ltb n 10)) [
  | inl small ↦ rw small (ground arith, h)
  | inr large ↦
      rw large (digits-IsDigits f (n / 10) ((48 + n % 10) ∷ acc) (digit (n % 10) (omega arith), h))
]
  where
    digit : (d : ℕ) → d < 10 → is_digit (48 + d) ≡ true
    digit d lt = ground arith

pub print_nat-IsDigits : (n : ℕ) → IsDigits (print_nat n)
unfolding print_nat
print_nat-IsDigits n = digits-IsDigits (suc n) n [] tt

digits-ne_nil : (fuel n : ℕ) (acc : Text) → n < fuel → digits fuel n acc ≢ []
unfolding digits
digits-ne_nil zero n acc h = absurd (omega arith)
digits-ne_nil (suc f) n acc h = ground (arith, digits-ne_nil f (n / 10) ((48 + n % 10) ∷ acc))

pub print_nat-ne_nil : (n : ℕ) → print_nat n ≢ []
unfolding print_nat
print_nat-ne_nil n = digits-ne_nil (suc n) n [] (omega arith)

-- Lines written with a newline each.
abbrev pub unlines : List Text → Text
unlines [] = []
unlines (l ∷ ls) = l ++ 10 ∷ unlines ls
