-- ===== src/Key/Dictionary.antt =====
-- `Dictionary` of src/key/dictionary.cc. The dictionaries are vectors and the indexes ordered
-- maps from a character to the set of the lines it occurs in.
mod Chars
pub mod Cut
pub mod Query
mod Tests
unfoldable pub use Chars.{char_len, first_byte, pieces, chars_of, char_set}
use serach_engine.Base.{
  ℕ, suc, Text, bytes, Bool, true, false, List, [], ◌∷◌, ◌++◌, Option, none, some, if◌then◌else◌,
  ◌==◌, text_eq, text_before, nat_eq, length,
}
use serach_engine.Base.Int.{ℤ, pos, negsuc, int_eq, ltb_ℤ}
use serach_engine.Base.Maps.{find, put, insert, bump, unordered}
use serach_engine.Base.Sets.{add}
use serach_engine.Common.Configuration.{Files, Settings, setting}
use serach_engine.Streams.{lines, IStream, open_text, read_word, read_int, ints_from}

abbrev pub Index : Type 0
Index = List (Text × List ℤ)

abbrev pub Entries : Type 0
Entries = List (Text × ℤ)

pub record Dictionary : Type 0 where
  pub dict_en : Entries
  pub dict_zh : Entries
  pub index_en : Index
  pub index_zh : Index

-- `index[ch]`: a missing key gives the empty set, and is added.
unfoldable pub lines_of : Text → Index → List ℤ
lines_of ch index = elim (find ch index) [ none ↦ [] | some s ↦ s ]

unfoldable pub touch_key : Text → Index → Index
touch_key ch index = elim (find ch index) [ none ↦ put text_before ch [] index | some s ↦ index ]

-- `for (elem : set) ++line_freq_map[elem]`.
unfoldable pub bump_all : List ℤ → List (ℤ × ℕ) → List (ℤ × ℕ)
bump_all [] m = m
bump_all (x ∷ xs) m = bump_all xs (bump x m)

-- The body of the second loop of `Dictionary::DoQuery`.
unfoldable pub count_char : Text → Dictionary → List (ℤ × ℕ) → Dictionary × List (ℤ × ℕ)
count_char ch d m =
    if char_len ch == pos 3
    then (record d { index_zh = touch_key ch d.index_zh }, bump_all (lines_of ch d.index_zh) m)
    else if char_len ch == pos 1
    then (record d { index_en = touch_key ch d.index_en }, bump_all (lines_of ch d.index_en) m)
    else (d, m)

-- The second loop of `Dictionary::DoQuery`.
unfoldable pub count_lines : List Text → Dictionary → List (ℤ × ℕ) → Dictionary × List (ℤ × ℕ)
unfolding count_char
count_lines [] d m = (d, m)
count_lines (ch ∷ chs) d m = count_lines chs (count_char ch d m).0 (count_char ch d m).1

-- `Dictionary::DoQuery`.
unfoldable pub do_query : Dictionary → Text → Dictionary × List (ℤ × ℕ)
unfolding count_lines char_set
do_query d key = count_lines (char_set key) d []

-- The line loop of `Dictionary::ReadDict`. The word and the number keep their values from the
-- line before where a line does not give them.
unfoldable pub read_entries : Text → ℤ → List Text → Entries
read_entries word freq [] = []
read_entries word freq (line ∷ rest) =
    let (word', s) = read_word word (open_text line) in
    let (freq', s') = read_int freq s in (word', freq') ∷ read_entries word' freq' rest

-- The file loop of `Dictionary::ReadDict`; `unset` is what an unset `int` holds.
unfoldable pub read_dict_files : Settings → Files → ℤ → List Text → Dictionary → Dictionary × ℤ
read_dict_files config files unset [] d = (d, pos 0)
read_dict_files config files unset (filename ∷ rest) d = elim (files filename) [
  | none ↦ (d, negsuc 0)
  | some s ↦
      let entries = read_entries [] unset (lines s) in
      read_dict_files config files unset rest (
        if filename == setting config (bytes "dict_eng")
        then record d { dict_en = d.dict_en ++ entries }
        else record d { dict_zh = d.dict_zh ++ entries })
]

-- `Dictionary::ReadDict`.
unfoldable pub read_dict : Settings → Files → ℤ → Dictionary → Dictionary × ℤ
unfolding read_dict_files
read_dict config files unset =
    read_dict_files config files unset
      (setting config (bytes "dict_eng") ∷ setting config (bytes "dict_zh") ∷ [])

unfoldable pub add_ints : List ℤ → List ℤ → List ℤ
add_ints s [] = s
add_ints s (n ∷ ns) = add_ints (add ltb_ℤ n s) ns

-- The line loop of `Dictionary::ReadIndex`: a character that is there keeps its set.
unfoldable pub read_postings : Text → ℤ → List Text → Index → Index
read_postings ch unset [] index = index
read_postings ch unset (line ∷ rest) index =
    let (ch', s) = read_word ch (open_text line) in
    read_postings ch' unset rest
      (insert text_before ch' (add_ints [] (ints_from (suc (length line)) unset s)) index)

unfoldable pub read_index_files : Settings → Files → ℤ → List Text → Dictionary → Dictionary × ℤ
read_index_files config files unset [] d = (d, pos 0)
read_index_files config files unset (filename ∷ rest) d = elim (files filename) [
  | none ↦ (d, negsuc 0)
  | some s ↦ read_index_files config files unset rest (
      if filename == setting config (bytes "index_eng")
      then record d { index_en = read_postings [] unset (lines s) d.index_en }
      else record d { index_zh = read_postings [] unset (lines s) d.index_zh })
]

-- `Dictionary::ReadIndex`.
unfoldable pub read_index : Settings → Files → ℤ → Dictionary → Dictionary × ℤ
unfolding read_index_files
read_index config files unset =
    read_index_files config files unset
      (setting config (bytes "index_eng") ∷ setting config (bytes "index_zh") ∷ [])

-- `Dictionary::Dictionary`: the results of the two readers are not looked at.
unfoldable pub load : Settings → Files → ℤ → Dictionary
unfolding read_dict read_index
load config files unset =
    let empty : Dictionary = record { dict_en = []; dict_zh = []; index_en = []; index_zh = [] } in
    (read_index config files unset (read_dict config files unset empty).0).0

-- `GetEnDict`, `GetCnDict`, `GetEnIndex` and `GetCnIndex`.
unfoldable pub get_en_dict : Dictionary → Entries
get_en_dict d = d.dict_en

unfoldable pub get_cn_dict : Dictionary → Entries
get_cn_dict d = d.dict_zh

unfoldable pub get_en_index : Dictionary → Index
get_en_index d = d.index_en

unfoldable pub get_cn_index : Dictionary → Index
get_cn_index d = d.index_zh
