-- ===== src/Key/Recommander.antt =====
-- `KeyRecommander` of src/key/key_recommander.cc, with `CandidateResult` and `CrCompare` of its
-- headers. The priority queue is the list of its elements, the top first; where two candidates
-- rank alike the newer one stands first, an order that the standard leaves open.
pub mod Distance
pub mod Ranking
pub mod Answers
pub mod Shared
pub mod Queries
mod Tests
use serach_engine.Base.{
  ℕ, zero, suc, ◌+◌, ◌-◌, ◌*◌, ◌/◌, min, Text, Bool, true, false, Outcome, Fault, ok, fault, ◌>>=◌,
  List, [], ◌∷◌, ◌++◌, map, Option, none, some, length, get_elem?, take, drop, if◌then◌else◌, ◌==◌,
  text_eq, nat_eq, ltb, leb,
}
use serach_engine.Base.Int.{ℤ, pos, negsuc, neg, sub_ℕ, ltb_ℤ, int_eq, int_beq}
use serach_engine.Key.Dictionary.{Dictionary, Entries, char_len, do_query}

pub record CandidateResult : Type 0 where
  pub word : Text
  pub freq : ℤ
  pub dist : ℤ

-- `CrCompare`: whether the first candidate ranks below the second.
unfoldable pub cr_compare : CandidateResult → CandidateResult → Bool
cr_compare lhs rhs =
    if int_beq lhs.dist rhs.dist
    then ltb_ℤ lhs.freq rhs.freq
    else if ltb_ℤ lhs.dist rhs.dist
    then false
    else true

-- `priority_queue::emplace`.
unfoldable pub emplace : CandidateResult → List CandidateResult → List CandidateResult
emplace c [] = c ∷ []
emplace c (x ∷ q) = if cr_compare c x then x ∷ emplace c q else c ∷ x ∷ q

pub record KeyRecommander : Type 0 where
  pub prique : List CandidateResult
  pub dictionary : Dictionary
  pub sought : Text
  pub resultvec : List Text

-- The table of distances, a vector of rows.
abbrev pub Table : Type 0
Table = List (List ℕ)

-- `distance[i][j]`: an index that is negative or too large is undefined.
unfoldable pub cell : Table → ℤ → ℤ → Outcome ℕ
cell t (negsuc i) j = fault Fault.undefined
cell t (pos i) (negsuc j) = fault Fault.undefined
cell t (pos i) (pos j) = elim (get_elem? t i) [
  | none ↦ fault Fault.undefined
  | some row ↦ elim (get_elem? row j) [ none ↦ fault Fault.undefined | some d ↦ ok d ]
]

abbrev pub set_elem {ℓ} : {A : Type ℓ} → List A → ℕ → A → List A
set_elem [] i v = []
set_elem (x ∷ xs) zero v = v ∷ xs
set_elem (x ∷ xs) (suc i) v = x ∷ set_elem xs i v

-- `distance[i][j] = v`.
unfoldable pub set_cell : Table → ℕ → ℕ → ℕ → Outcome Table
set_cell t i j v = elim (get_elem? t i) [
  | none ↦ fault Fault.undefined
  | some row ↦
      if ltb j (length row) then ok (set_elem t i (set_elem row j v)) else fault Fault.undefined
]

-- `string(s, pos, n)`: a position past the end throws.
unfoldable pub substring : Text → ℤ → ℕ → Outcome Text
substring s (negsuc p) n = fault Fault.out_of_range
substring s (pos p) n =
    if leb p (length s) then ok (take n (drop p s)) else fault Fault.out_of_range

-- `(k - 1) * char_len`.
unfoldable pub offset : ℕ → ℕ → ℤ
offset zero n = neg n
offset (suc k) n = pos (k * n)

-- The body of the two nested loops.
unfoldable pub fill_cell : Text → Text → ℕ → ℕ → ℕ → Table → Outcome Table
fill_cell lhs rhs n i j t = do
  left ← cell t (sub_ℕ i 1) (pos j)
  down ← cell t (pos i) (sub_ℕ j 1)
  left_down ← cell t (sub_ℕ i 1) (sub_ℕ j 1)
  l ← substring lhs (offset i n) n
  r ← substring rhs (offset j n) n
  set_cell t i j (min (left + 1) (min (down + 1) (if l == r then left_down else left_down + 1)))

-- `for (j = 0; j < rhs_len + 1; ++j)`, by the rounds left.
unfoldable pub fill_row : Text → Text → ℕ → ℕ → ℕ → ℕ → Table → Outcome Table
fill_row lhs rhs n i zero j t = ok t
fill_row lhs rhs n i (suc rounds) j t = do
  t' ← fill_cell lhs rhs n i j t
  fill_row lhs rhs n i rounds (suc j) t'

-- `for (i = 1; i < lhs_len + 1; ++i)`.
unfoldable pub fill_rows : Text → Text → ℕ → ℕ → ℕ → ℕ → Table → Outcome Table
fill_rows lhs rhs n columns zero i t = ok t
fill_rows lhs rhs n columns (suc rounds) i t = do
  t' ← fill_row lhs rhs n i columns 0 t
  fill_rows lhs rhs n columns rounds (suc i) t'

-- `for (i = 0; i < lhs_len; ++i) distance[i][0] = i`.
unfoldable pub first_column : ℕ → ℕ → Table → Outcome Table
first_column zero i t = ok t
first_column (suc rounds) i t = do t' ← set_cell t i 0 i; first_column rounds (suc i) t'

-- `for (i = 0; i < rhs_len; ++i) distance[0][i] = i`.
unfoldable pub first_row : ℕ → ℕ → Table → Outcome Table
first_row zero i t = ok t
first_row (suc rounds) i t = do t' ← set_cell t 0 i i; first_row rounds (suc i) t'

abbrev pub replicate {ℓ} : {A : Type ℓ} → ℕ → A → List A
replicate zero a = []
replicate (suc n) a = a ∷ replicate n a

-- The size of a word in characters: `int` division rounds towards 0.
unfoldable pub char_count : Text → ℤ → ℤ
char_count s (pos n) = pos (length s / n)
char_count s (negsuc n) = neg (length s / suc n)

-- `vector<T>(n, …)`: a negative `int` is too large a `size_t`.
unfoldable pub vector_size : ℤ → Outcome ℕ
vector_size (pos n) = ok n
vector_size (negsuc n) = fault Fault.length_error

-- n + 1.
unfoldable pub int_suc : ℤ → ℤ
int_suc (pos n) = pos (suc n)
int_suc (negsuc n) = neg n

-- a + b for two sizes, which have one sign or a zero among them.
unfoldable pub int_add : ℤ → ℤ → ℤ
int_add (pos a) (pos b) = pos (a + b)
int_add (pos a) (negsuc b) = sub_ℕ a (suc b)
int_add (negsuc a) (pos b) = sub_ℕ b (suc a)
int_add (negsuc a) (negsuc b) = negsuc (suc (a + b))

-- The rounds of a loop from `start` up to a bound, none for a negative one.
unfoldable pub rounds_to : ℤ → ℕ
rounds_to (pos n) = n
rounds_to (negsuc n) = 0

-- The step in bytes of the loops, which run only for a positive `char_len`.
unfoldable pub step_bytes : ℤ → ℕ
step_bytes (pos n) = n
step_bytes (negsuc n) = 0

-- The part of `MinimumEditDist` after the test for an empty word.
unfoldable pub edit_table : Text → Text → ℤ → ℤ → ℤ → Outcome ℤ
edit_table lhs rhs n lhs_len rhs_len = do
  columns ← vector_size (int_suc rhs_len)
  rows ← vector_size (int_suc lhs_len)
  t ← first_column (rounds_to lhs_len) 0 (replicate rows (replicate columns 0))
  t ← first_row (rounds_to rhs_len) 0 t
  t ← fill_rows lhs rhs (step_bytes n) (rounds_to (int_suc rhs_len)) (rounds_to lhs_len) 1 t
  d ← cell t lhs_len rhs_len
  ok (pos d)

-- `KeyRecommander::MinimumEditDist`, with `_sought` for `lhs`.
unfoldable pub minimum_edit_dist : Text → Text → Outcome ℤ
minimum_edit_dist lhs rhs =
    let n = char_len rhs in
    let lhs_len = char_count lhs n in
    let rhs_len = char_count rhs n in
    if int_beq lhs_len (pos 0)
    then ok (int_add lhs_len rhs_len)
    else if int_beq rhs_len (pos 0)
    then ok (int_add lhs_len rhs_len)
    else edit_table lhs rhs n lhs_len rhs_len

-- `dict[k]`.
unfoldable pub entry_at : Entries → ℤ → Outcome (Text × ℤ)
entry_at dict (negsuc k) = fault Fault.undefined
entry_at dict (pos k) = elim (get_elem? dict k) [ none ↦ fault Fault.undefined | some e ↦ ok e ]

-- The loops of `Query`. For a Chinese word the frequency is taken at the line's count, not at the
-- line.
unfoldable pub query_zh :
    Text → Entries → List (ℤ × ℕ) → List CandidateResult → Outcome (List CandidateResult)
query_zh sought dict [] q = ok q
query_zh sought dict ((line, count) ∷ rest) q = do
  (word, _) ← entry_at dict line
  (_, freq) ← entry_at dict (pos count)
  dist ← minimum_edit_dist sought word
  query_zh sought dict rest (emplace (record { word = word; freq = freq; dist = dist }) q)

unfoldable pub query_en :
    Text → Entries → List (ℤ × ℕ) → List CandidateResult → Outcome (List CandidateResult)
query_en sought dict [] q = ok q
query_en sought dict ((line, count) ∷ rest) q = do
  (word, freq) ← entry_at dict line
  dist ← minimum_edit_dist sought word
  query_en sought dict rest (emplace (record { word = word; freq = freq; dist = dist }) q)

-- `KeyRecommander::Query`.
unfoldable pub query : KeyRecommander → Text → Outcome KeyRecommander
query k word =
    let (d, word_map) = do_query k.dictionary word in
    let looked =
      if int_beq (char_len word) (pos 3)
      then query_zh word d.dict_zh word_map k.prique
      else query_en word d.dict_en word_map k.prique in
    do q ← looked; ok (record k { prique = q; dictionary = d; sought = word })

-- The first loop of `GetString`: the bound is read again each round, and each round pops.
unfoldable pub take_top : ℕ → List CandidateResult → List Text × List CandidateResult
take_top i [] = ([], [])
take_top i (c ∷ q) =
    let rest = take_top (suc i) q in
    if ltb i (length (c ∷ q))
    then (if i == 4 then (c.word ∷ [], q) else (c.word ∷ rest.0, rest.1))
    else ([], c ∷ q)

-- The second loop of `GetString`.
unfoldable pub drain : ℕ → List CandidateResult → List CandidateResult
drain i [] = []
drain i (c ∷ q) = let rest = drain (suc i) q in if ltb i (length (c ∷ q)) then rest else c ∷ q

-- `result.append(elem).append("\n")`.
unfoldable pub print_words : List Text → Text
print_words [] = []
print_words (w ∷ ws) = w ++ 10 ∷ print_words ws

-- `KeyRecommander::GetString`.
unfoldable pub get_string : KeyRecommander → Text × KeyRecommander
get_string k =
    let (top, q) = take_top 0 k.prique in
    (print_words top, record k { prique = drain 0 q; resultvec = top })

-- The first loop of `Print`, which counts the rounds from 1 as well.
unfoldable pub print_top : ℕ → ℕ → List CandidateResult → List Text × List CandidateResult
print_top cnt i [] = ([], [])
print_top cnt i (c ∷ q) =
    let rest = print_top (suc cnt) (suc i) q in
    if ltb i (length (c ∷ q))
    then (if cnt == 5 then (c.word ∷ [], q) else (c.word ∷ rest.0, rest.1))
    else ([], c ∷ q)

-- `KeyRecommander::Print`, with what it writes.
unfoldable pub print : KeyRecommander → Text × KeyRecommander
print k =
    let (top, q) = print_top 1 0 k.prique in (print_words top, record k { prique = drain 0 q })
