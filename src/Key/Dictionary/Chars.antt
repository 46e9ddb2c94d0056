-- ===== src/Key/Dictionary/Chars.antt =====
-- `Dictionary::CharLen`, and how a word is cut into characters of that many bytes.
use Prim.Native.Nat.{bit_and}
use serach_engine.Base.{
  ℕ, zero, suc, Text, List, [], ◌∷◌, take, drop, length, if◌then◌else◌, ◌==◌, nat_eq, text_eq,
  text_before,
}
use serach_engine.Base.Int.{ℤ, pos, negsuc, int_eq}
use serach_engine.Base.Sets.{add}

-- `c.c_str()[0]`: the terminating zero of an empty string.
unfoldable pub first_byte : Text → ℕ
first_byte [] = 0
first_byte (b ∷ s) = b

-- `Dictionary::CharLen`.
unfoldable pub char_len : Text → ℤ
unfolding first_byte
char_len c =
    if bit_and (first_byte c) 0x80 == 0x0
    then pos 1
    else if bit_and (first_byte c) 0xE0 == 0xE0
    then pos 3
    else negsuc 0

-- `for (i = 0; i < s.size(); i += n) string(s, i, n)`, on fuel.
unfoldable pub pieces : ℕ → ℕ → Text → List Text
pieces zero n s = []
pieces (suc fuel) n [] = []
pieces (suc fuel) n (c ∷ s) = take n (c ∷ s) ∷ pieces fuel n (drop n (c ∷ s))

-- The loop at a step of -1: `string(key, 0, -1)` is the whole key, and -1 is not below the size
-- once both are `size_t`.
unfoldable pub chars_at : ℤ → Text → List Text
unfolding pieces
chars_at (pos n) key = pieces (length key) n key
chars_at (negsuc n) [] = []
chars_at (negsuc n) (b ∷ s) = (b ∷ s) ∷ []

-- The strings that the first loop of `Dictionary::DoQuery` inserts.
unfoldable pub chars_of : Text → List Text
unfolding chars_at char_len
chars_of key = chars_at (char_len key) key

unfoldable pub add_all : List Text → List Text → List Text
add_all s [] = s
add_all s (c ∷ cs) = add_all (add text_before c s) cs

-- The set that it builds.
unfoldable pub char_set : Text → List Text
unfolding add_all
char_set key = add_all [] (chars_of key)
