-- ===== src/Streams/Read.antt =====
-- Reading gives back what was written.
use mathlib.Core.List.{append-nil, append_assoc}
use serach_engine.Base.{
  ℕ, ◌^◌, ◌<◌, ◌≡◌, refl, sym, ap, ◌∙◌, Text, lt→ltb, true, false, List, [], ◌∷◌, ◌++◌, All, ◌==◌,
  nat_eq, arith,
}
use serach_engine.Base.Int.{ℤ, pos}
use serach_engine.Streams.Decimal.{
  unlines, print_nat, is_digit, value, value-print_nat, IsDigits, print_nat-IsDigits,
  print_nat-ne_nil,
}
use serach_engine.Streams.Input.{
  is_space, collect, lines, take_word, drop_word, take_digits, drop_digits, open_text, digits_at,
  in_range, read_word, read_int,
}

-- A line that `getline` gives back whole.
abbrev pub IsLine : Text → Type 0
IsLine = All (λ c. (c == 10) ≡ false)

-- A word that `>>` gives back whole, if it is not empty.
abbrev pub IsWord : Text → Type 0
IsWord = All (λ c. is_space c ≡ false)

collect-line :
    (line l s : Text) → IsLine l → collect line (l ++ 10 ∷ s) ≡ (line ++ l) ∷ collect [] s
unfolding collect
collect-line [] [] s h = refl
collect-line (b ∷ line) [] s h = rw append-nil
collect-line [] (c ∷ l) s h = rw (h.0, collect) (collect-line (c ∷ []) l s h.1)
collect-line (b ∷ line) (c ∷ l) s h =
    rw (h.0, collect)
      (collect-line (b ∷ line ++ c ∷ []) l s h.1
        ∙ ap (λ t. t ∷ collect [] s) (append_assoc (b ∷ line) (c ∷ []) l))

-- What follows a word or a number: the end, or a space.
abbrev pub EndsWord : Text → Type 0
EndsWord [] = Unit {0}
EndsWord (c ∷ s) = is_space c ≡ true

take_word-append : (w r : Text) → IsWord w → EndsWord r → take_word (w ++ r) ≡ w
unfolding take_word
take_word-append [] [] h e = refl
take_word-append [] (c ∷ r) h e = rw e
take_word-append (c ∷ w) r h e = rw (h.0, take_word-append w r h.1 e)

drop_word-append : (w r : Text) → IsWord w → EndsWord r → drop_word (w ++ r) ≡ r
unfolding drop_word
drop_word-append [] [] h e = refl
drop_word-append [] (c ∷ r) h e = rw e
drop_word-append (c ∷ w) r h e = rw (h.0, drop_word-append w r h.1 e)

-- `>>` takes a word that is there, and stops at the space behind it.
pub read_word-append :
    (old : Text) (c : ℕ) (w r : Text)
    → IsWord (c ∷ w)
    → EndsWord r
    → read_word old (open_text (c ∷ w ++ r)) ≡ (c ∷ w, open_text r)
unfolding read_word
read_word-append old c w r h e =
    rw (h.0, h.0, take_word-append w r h.1 e, drop_word-append w r h.1 e)

space_not_digit : (c : ℕ) → is_space c ≡ true → is_digit c ≡ false
unfolding is_space is_digit
space_not_digit c h = ground arith

digit_not_space :
    (c : ℕ)
    → is_digit c ≡ true
    → (is_space c ≡ false) × ((c == b'-') ≡ false) × ((c == b'+') ≡ false)
unfolding is_space is_digit
digit_not_space c h = ground arith

take_digits-append : (w r : Text) → IsDigits w → EndsWord r → take_digits (w ++ r) ≡ w
unfolding take_digits
take_digits-append [] [] h e = refl
take_digits-append [] (c ∷ r) h e = rw (space_not_digit c e)
take_digits-append (c ∷ w) r h e = rw (h.0, take_digits-append w r h.1 e)

drop_digits-append : (w r : Text) → IsDigits w → EndsWord r → drop_digits (w ++ r) ≡ r
unfolding drop_digits
drop_digits-append [] [] h e = refl
drop_digits-append [] (c ∷ r) h e = rw (space_not_digit c e)
drop_digits-append (c ∷ w) r h e = rw (h.0, drop_digits-append w r h.1 e)

digits_at-append :
    (c : ℕ) (w r : Text)
    → IsDigits (c ∷ w)
    → EndsWord r
    → value 0 (c ∷ w) < 2 ^ 31
    → digits_at false (c ∷ w ++ r) ≡ (pos (value 0 (c ∷ w)), open_text r)
unfolding digits_at in_range
digits_at-append c w r h e lt =
    rw
      (take_digits-append (c ∷ w) r h e, digits_at, drop_digits-append (c ∷ w) r h e, lt→ltb _ _ lt)

read_digits :
    (old : ℤ) (c : ℕ) (w r : Text)
    → IsDigits (c ∷ w)
    → EndsWord r
    → value 0 (c ∷ w) < 2 ^ 31
    → read_int old (open_text (c ∷ w ++ r)) ≡ (pos (value 0 (c ∷ w)), open_text r)
unfolding read_int
read_digits old c w r h e lt =
    let (space, minus, plus) = digit_not_space c h.0 in
    rw (space, minus, plus) (digits_at-append c w r h e lt)

print_nat-cons : (n : ℕ) (t : Text) → print_nat n ≡ t → (c : ℕ) × (w : Text) × (print_nat n ≡ c ∷ w)
print_nat-cons n [] e = absurd (print_nat-ne_nil n e)
print_nat-cons n (c ∷ w) e = (c, w, e)

-- `>>` reads back a printed number that an `int` holds.
pub read_int-print_nat :
    (old : ℤ) (n : ℕ) (r : Text)
    → EndsWord r
    → n < 2 ^ 31
    → read_int old (open_text (print_nat n ++ r)) ≡ (pos n, open_text r)
read_int-print_nat old n r e lt =
    let (c, w, q) = print_nat-cons n _ refl in
    let v : value 0 (c ∷ w) ≡ n = ap (value 0) (sym q) ∙ value-print_nat n in
    rw q (
      read_digits old c w r (rw q at (print_nat-IsDigits n)) e (omega (arith, v))
      ∙ ap (λ (m : ℕ). (pos m, open_text r)) v)

-- A leading space is skipped.
pub read_int-space :
    (old : ℤ) (c : ℕ) (s : Text)
    → is_space c ≡ true
    → read_int old (open_text (c ∷ s)) ≡ read_int old (open_text s)
unfolding read_int
read_int-space old c s h = rw h

-- `getline` gives back the lines that were written.
pub lines-unlines : (ls : List Text) → All IsLine ls → lines (unlines ls) ≡ ls
unfolding lines
lines-unlines [] h = refl
lines-unlines (l ∷ ls) h = collect-line [] l (unlines ls) h.0 ∙ ap (◌∷◌ l) (lines-unlines ls h.1)

pub word-IsLine : (w : Text) → IsWord w → IsLine w
unfolding is_space
word-IsLine [] h = tt
word-IsLine (c ∷ w) h = (ground (arith, h.0), word-IsLine w h.1)

pub digits-IsLine : (w : Text) → IsDigits w → IsLine w
unfolding is_digit
digits-IsLine [] h = tt
digits-IsLine (c ∷ w) h = (ground (arith, h.0), digits-IsLine w h.1)
