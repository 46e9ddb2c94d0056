-- ===== src/Streams/Input.antt =====
-- `std::getline` and the extractions of an `istringstream`.
use serach_engine.Base.{
  ℕ, zero, suc, ◌-◌, ◌^◌, Text, Bool, true, false, ◌&&◌, ◌||◌, List, [], ◌∷◌, if◌then◌else◌, leb,
  ltb, ◌==◌, nat_eq, ◌++◌, length, ◌+◌,
}
use serach_engine.Base.Int.{ℤ, pos, negsuc, neg}
use serach_engine.Streams.Decimal.{is_digit, value}

-- `isspace` in the C locale.
unfoldable pub is_space : ℕ → Bool
is_space c = c == 32 || (leb 9 c && leb c 13)

-- The loop of `getline`: the line so far, and the bytes left.
unfoldable pub collect : Text → Text → List Text
collect [] [] = []
collect (b ∷ line) [] = (b ∷ line) ∷ []
collect line (c ∷ s) = elim (c == 10) [
  | true ↦ line ∷ collect [] s
  | false ↦ collect (line ++ c ∷ []) s
]

-- `while (getline(ifs, line))`: the lines, the last one also without its newline.
unfoldable pub lines : Text → List Text
unfolding collect
lines = collect []

unfoldable pub skip_spaces : Text → Text
skip_spaces [] = []
skip_spaces (c ∷ s) = if is_space c then skip_spaces s else c ∷ s

unfoldable pub take_word : Text → Text
take_word [] = []
take_word (c ∷ s) = if is_space c then [] else c ∷ take_word s

unfoldable pub drop_word : Text → Text
drop_word [] = []
drop_word (c ∷ s) = if is_space c then c ∷ s else drop_word s

unfoldable pub take_digits : Text → Text
take_digits [] = []
take_digits (c ∷ s) = if is_digit c then c ∷ take_digits s else []

unfoldable pub drop_digits : Text → Text
drop_digits [] = []
drop_digits (c ∷ s) = if is_digit c then drop_digits s else c ∷ s

-- The bytes not yet read, and the fail bit.
pub record IStream : Type 0 where
  pub rest : Text
  pub failed : Bool

abbrev pub open_text : Text → IStream
open_text s = record { rest = s; failed = false }

-- `iss >> word`: at the end of the text the word keeps its value and the stream fails.
word_at : Text → Text → Text × IStream
word_at old [] = (old, record { rest = []; failed = true })
word_at old (c ∷ s) = (take_word (c ∷ s), open_text (drop_word (c ∷ s)))

unfoldable pub read_word : Text → IStream → Text × IStream
unfolding word_at skip_spaces take_word drop_word
read_word old s = if s.failed then (old, s) else word_at old (skip_spaces s.rest)

-- `iss >> number`: out of range gives the nearest `int` and fails, no digit gives 0 and fails.
unfoldable pub in_range : Bool → ℕ → Text → ℤ × IStream
in_range true n s =
    if leb n (2 ^ 31)
    then (neg n, open_text s)
    else (negsuc (2 ^ 31 - 1), record { rest = s; failed = true })
in_range false n s =
    if ltb n (2 ^ 31)
    then (pos n, open_text s)
    else (pos (2 ^ 31 - 1), record { rest = s; failed = true })

unfoldable pub digits_at : Bool → Text → ℤ × IStream
digits_at minus s = elim (take_digits s) [
  | [] ↦ (pos 0, record { rest = s; failed = true })
  | d ∷ ds ↦ in_range minus (value 0 (d ∷ ds)) (drop_digits s)
]

int_at : ℤ → Text → ℤ × IStream
int_at old [] = (old, record { rest = []; failed = true })
int_at old (c ∷ s) =
    if c == b'-'
    then digits_at true s
    else if c == b'+'
    then digits_at false s
    else digits_at false (c ∷ s)

unfoldable pub read_int : ℤ → IStream → ℤ × IStream
unfolding int_at digits_at in_range skip_spaces take_digits drop_digits
read_int old s = if s.failed then (old, s) else int_at old (skip_spaces s.rest)

-- `while (iss >> word) words.push_back(word)`, on fuel: a word takes at least one byte.
words_from : ℕ → IStream → List Text
words_from zero s = []
words_from (suc fuel) s =
    let (word, s') = read_word [] s in
    let rest = words_from fuel s' in if s'.failed then [] else word ∷ rest

unfoldable pub words : Text → List Text
unfolding words_from read_word
words s = words_from (length s + 1) (open_text s)

-- `while (iss >> number)`, on fuel as well.
unfoldable pub ints_from : ℕ → ℤ → IStream → List ℤ
ints_from zero old s = []
ints_from (suc fuel) old s =
    let (n, s') = read_int old s in
    let rest = ints_from fuel n s' in if s'.failed then [] else n ∷ rest
