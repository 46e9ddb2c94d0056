-- ===== src/Key/Recommander/Distance.antt =====
-- What `MinimumEditDist` returns.
use native.Mathlib.Nat.{div-eq_of_lt, div-eq-sub-div}
use serach_engine.Base.{
  ℕ, zero, suc, ◌+◌, ◌-◌, ◌/◌, ◌≡◌, refl, ◌∙◌, ◌⊎◌, inl, inr, Text, ◌||◌, Outcome, Fault, ok, fault,
  length, get_elem?, if◌then◌else◌, nat_beq, ltb, ltb→lt, arith, Bool-cases, Option-cases,
}
use serach_engine.Base.Int.{ℤ, pos, sub_ℕ, int_beq}
use serach_engine.Key.Dictionary.{char_len}
use serach_engine.Key.Recommander.{
  Table, set_elem, cell, set_cell, fill_cell, fill_row, fill_rows, first_column, first_row,
  replicate, char_count, vector_size, int_suc, int_add, rounds_to, step_bytes, edit_table,
  minimum_edit_dist,
}

-- A call that returns, or is undefined.
abbrev Defined {ℓ} : {A : Type ℓ} → Outcome A → Type ℓ
Defined {A = A} m = (m ≡ fault Fault.undefined) ⊎ ((a : A) × (m ≡ ok a))

set_cell-Defined : (t : Table) (i j v : ℕ) → Defined (set_cell t i j v)
unfolding set_cell
set_cell-Defined t i j v = elim (Option-cases (get_elem? t i)) [
  | inl out ↦ inl (rw (out, set_cell))
  | inr (row, here) ↦ elim (Bool-cases (ltb j (length row))) [
    | inl fits ↦ inr (set_elem t i (set_elem row j v), rw (here, set_cell, fits))
    | inr past ↦ inl (rw (here, set_cell, past))
  ]
]

first_column-Defined : (rounds i : ℕ) (t : Table) → Defined (first_column rounds i t)
unfolding first_column
first_column-Defined zero i t = inr (t, refl)
first_column-Defined (suc rounds) i t = elim (set_cell-Defined t i 0 i) [
  | inl e ↦ inl (rw e)
  | inr (t', e) ↦ rw e (first_column-Defined rounds (suc i) t')
]

first_row-Defined : (rounds i : ℕ) (t : Table) → Defined (first_row rounds i t)
unfolding first_row
first_row-Defined zero i t = inr (t, refl)
first_row-Defined (suc rounds) i t = elim (set_cell-Defined t 0 i i) [
  | inl e ↦ inl (rw e)
  | inr (t', e) ↦ rw e (first_row-Defined rounds (suc i) t')
]

cell-Defined : (t : Table) (i j : ℕ) → Defined (cell t (pos i) (pos j))
unfolding cell
cell-Defined t i j = elim (Option-cases (get_elem? t i)) [
  | inl out ↦ inl (rw (out, cell))
  | inr (row, here) ↦ elim (Option-cases (get_elem? row j)) [
    | inl past ↦ inl (rw (here, cell, past))
    | inr (d, fits) ↦ inr (d, rw (here, cell, fits))
  ]
]

-- The first round reads left of the first column.
fill_cell-undefined :
    (lhs rhs : Text) (n i : ℕ) (t : Table) → fill_cell lhs rhs n (suc i) 0 t ≡ fault Fault.undefined
unfolding fill_cell cell
fill_cell-undefined lhs rhs n i t =
    let e : sub_ℕ (suc i) 1 ≡ pos i = ground arith in
    rw e (elim (cell-Defined t i 0) [ inl out ↦ rw out refl | inr (d, here) ↦ rw here refl ])

fill_rows-undefined :
    (lhs rhs : Text) (n columns rounds i : ℕ) (t : Table)
    → fill_rows lhs rhs n (suc columns) (suc rounds) (suc i) t ≡ fault Fault.undefined
unfolding fill_rows fill_row
fill_rows-undefined lhs rhs n columns rounds i t = rw (fill_cell-undefined lhs rhs n i t)

edit_table-undefined :
    (lhs rhs : Text) (n : ℤ) (a b : ℕ)
    → edit_table lhs rhs n (pos (suc a)) (pos (suc b)) ≡ fault Fault.undefined
unfolding edit_table vector_size int_suc rounds_to
edit_table-undefined lhs rhs n a b = elim (first_column-Defined (suc a) 0 zeros) [
  | inl out ↦ rw out refl
  | inr (t, e) ↦ rw e (elim (first_row-Defined (suc b) 0 t) [
    | inl out ↦ rw out refl
    | inr (t', e') ↦ rw (e', fill_rows-undefined lhs rhs (step_bytes n) (suc b) a 0 t')
  ])
]
  where
    zeros : Table
    zeros = replicate (suc (suc a)) (replicate (suc (suc b)) 0)

-- The branch on two sizes, `a` and `b` characters.
at_sizes :
    (lhs rhs : Text) (n : ℤ) (a b : ℕ)
    → (if int_beq (pos a) (pos 0)
        then ok (int_add (pos a) (pos b))
        else if int_beq (pos b) (pos 0)
        then ok (int_add (pos a) (pos b))
        else edit_table lhs rhs n (pos a) (pos b))
      ≡ (if nat_beq a 0 || nat_beq b 0 then ok (pos (a + b)) else fault Fault.undefined)
unfolding int_beq int_add
at_sizes lhs rhs n zero b = refl
at_sizes lhs rhs n (suc a) zero = ground arith
at_sizes lhs rhs n (suc a) (suc b) = ground (arith, edit_table-undefined lhs rhs n a b)

div-eq_zero : (k n : ℕ) → nat_beq (k / suc n) 0 ≡ ltb k (suc n)
div-eq_zero k n = elim (Bool-cases (ltb k (suc n))) [
  | inl less ↦
      let zero_div : k / suc n ≡ 0 = div-eq_of_lt (ltb→lt k (suc n) less) in
      rw (less, zero_div) refl
  | inr more ↦
      let step : k / suc n ≡ (k - suc n) / suc n + 1 =
        div-eq-sub-div {m = suc n} {n = k} (omega arith) (ground arith) in
      rw (more, step) (ground arith)
]

-- For a right word that begins with a character of a known length, MinimumEditDist returns the sum
-- of the two sizes if one word is shorter than that character and is undefined on all other pairs,
-- as it then reads left of the first column of its table.
pub minimum_edit_dist-undefined :
    (lhs rhs : Text) (n : ℕ)
    → char_len rhs ≡ pos (suc n)
    → minimum_edit_dist lhs rhs ≡ (
        if ltb (length lhs) (suc n) || ltb (length rhs) (suc n)
        then ok (pos (length lhs / suc n + length rhs / suc n))
        else fault Fault.undefined)
unfolding minimum_edit_dist char_count
minimum_edit_dist-undefined lhs rhs n h = rw h (
    at_sizes lhs rhs (pos (suc n)) (length lhs / suc n) (length rhs / suc n)
    ∙ rw (div-eq_zero (length lhs) n, div-eq_zero (length rhs) n) refl)
