-- ===== src/Key/Dictionary/Cut.antt =====
-- What `CharLen` and the cutting of a word into characters give.
use mathlib.Core.List.{flatten, append-nil}
use serach_engine.Base.{
  ◌≤◌, Bool-cases, nat_beq, inl, inr, ℕ, zero, suc, ◌<◌, ◌≤◌, ◌≡◌, refl, ap, ◌∙◌, Text, Bool, true,
  ◌&&◌, [], ◌∷◌, ◌++◌, All, take, drop, length, if◌then◌else◌, nat_eq, ltb, length-drop,
  take-append-drop, arith,
}
use serach_engine.Base.Int.{ℤ, pos, negsuc, int_eq, int_beq, int_beq_iff}
use serach_engine.Key.Dictionary.Chars.{char_len, pieces, chars_of, chars_at}

-- A test holds of the bytes up to `b`, counted down.
up_to : (ℕ → Bool) → ℕ → Bool
up_to test zero = test zero
up_to test (suc b) = test (suc b) && up_to test b

up_to-test : (test : ℕ → Bool) (b c : ℕ) → up_to test b ≡ true → c ≤ b → test c ≡ true
unfolding up_to
up_to-test test zero c h le = let e : c ≡ zero = omega arith in rw e h
up_to-test test (suc b) c h le = elim (Bool-cases (nat_beq c (suc b))) [
  | inl e ↦ ground arith
  | inr e ↦ ground (arith, up_to-test test b c)
]

-- The length of the character that a byte begins: 1 below 128, 3 from 224 on, and no length between.
abbrev pub length_of_byte : ℕ → ℤ
length_of_byte b = if ltb b 128 then pos 1 else if ltb b 224 then negsuc 0 else pos 3

table : up_to (λ b. int_beq (char_len (b ∷ [])) (length_of_byte b)) 255 ≡ true
unfolding up_to char_len int_beq
table = refl

-- CharLen reads the first byte alone: an ASCII byte begins a character of one byte, a byte from
-- 224 on one of three, and any other byte gives -1.
pub char_len-length_of_byte : (b : ℕ) (s : Text) → b < 256 → char_len (b ∷ s) ≡ length_of_byte b
unfolding char_len
char_len-length_of_byte b s h = (int_beq_iff _ _).0 (up_to-test _ 255 b table (omega arith))

flatten-pieces : (fuel n : ℕ) (s : Text) → 0 < n → length s ≤ fuel → flatten (pieces fuel n s) ≡ s
unfolding pieces flatten
flatten-pieces zero n [] h f = refl
flatten-pieces zero n (c ∷ s) h f = absurd (omega arith)
flatten-pieces (suc fuel) n [] h f = refl
flatten-pieces (suc fuel) n (c ∷ s) h f =
    ap (◌++◌ (take n (c ∷ s)))
      (flatten-pieces fuel n (drop n (c ∷ s)) h (omega (arith, length-drop n (c ∷ s))))
    ∙ take-append-drop n (c ∷ s)

-- The loop that cuts a word into characters terminates and loses no byte, whatever byte the word
-- begins with.
pub flatten-chars_of : (key : Text) → All (λ b. b < 256) key → flatten (chars_of key) ≡ key
unfolding chars_of flatten
flatten-chars_of [] h = refl
flatten-chars_of (b ∷ s) h = rw (char_len-length_of_byte b s h.0) (cut (length_of_byte b) refl)
  where
    cut : (n : ℤ) → length_of_byte b ≡ n → flatten (chars_at n (b ∷ s)) ≡ b ∷ s
    cut (pos n) e = flatten-pieces (length (b ∷ s)) n (b ∷ s) (ground arith) (omega arith)
    cut (negsuc n) e = ap (◌∷◌ b) (append-nil s)
