-- ===== src/Key/DictProducer.antt =====
-- `DictProducer` of src/key/dict_producer.cc: the frequency dictionaries, the index of their
-- characters, and the files that `Dictionary` reads. The segmenter of cppjieba and the directory
-- listing are parameters; a frequency and a line number stay below 2^31.
pub mod Counts
pub mod Postings
pub mod Storable
pub mod IndexLines
pub mod Stored
pub mod Loaded
mod Tests
use Prim.Native.Nat.{bit_and}
use serach_engine.Base.{
  ℕ, zero, suc, ◌+◌, Text, bytes, Bool, true, false, not, ◌&&◌, ◌||◌, List, [], ◌∷◌, ◌++◌, map,
  Option, none, some, length, if◌then◌else◌, ◌==◌, text_eq, text_before, nat_eq, leb, ltb,
}
use serach_engine.Base.Int.{ℤ, pos, negsuc}
use serach_engine.Base.Maps.{find, put}
use serach_engine.Base.Sets.{contains, add}
use serach_engine.Common.Configuration.{Files, Settings, setting, add_words}
use serach_engine.Key.Dictionary.{pieces, first_byte}
use serach_engine.Streams.{lines, words, print_nat, unlines}

-- `enum { CN, ENG }`.
pub data Language : Type 0 where
  cn eng : Language

pub record DictProducer : Type 0 where
  pub file : List Text
  pub dict : List (Text × ℕ)
  pub index : List (Text × List ℕ)

-- `isalpha` and `tolower` in the C locale.
unfoldable pub is_alpha : ℕ → Bool
is_alpha c = (leb 65 c && leb c 90) || (leb 97 c && leb c 122)

unfoldable pub to_lower : ℕ → ℕ
to_lower c = if leb 65 c && leb c 90 then c + 32 else c

unfoldable pub pre_process_byte : ℕ → ℕ
unfolding is_alpha to_lower
pre_process_byte c = if is_alpha c then to_lower c else 32

-- `DictProducer::PreProcess`.
unfoldable pub pre_process : Text → Text
unfolding pre_process_byte
pre_process = map pre_process_byte

-- `DictProducer::ReadStopWord`: a file that does not open adds nothing.
unfoldable pub read_stop_word : Files → List Text → Text → List Text
unfolding add_words
read_stop_word files stop_word path = elim (files path) [
  | none ↦ stop_word
  | some s ↦ add_words stop_word (words s)
]

-- The body of the word loops of `BuildEnDict` and `BuildCnDict`.
unfoldable pub count_word : List Text → List (Text × ℕ) → Text → List (Text × ℕ)
count_word stop_word dictmap word =
    if contains word stop_word then dictmap else elim (find word dictmap) [
      | some n ↦ put text_before word (suc n) dictmap
      | none ↦ put text_before word 1 dictmap
    ]

unfoldable pub count_words : List Text → List (Text × ℕ) → List Text → List (Text × ℕ)
unfolding count_word
count_words stop_word dictmap [] = dictmap
count_words stop_word dictmap (word ∷ rest) =
    count_words stop_word (count_word stop_word dictmap word) rest

-- The line loop of `BuildEnDict`.
unfoldable pub count_en_lines : List Text → List (Text × ℕ) → List Text → List (Text × ℕ)
unfolding count_words pre_process
count_en_lines stop_word dictmap [] = dictmap
count_en_lines stop_word dictmap (line ∷ rest) =
    count_en_lines stop_word (count_words stop_word dictmap (words (pre_process line))) rest

-- `DictProducer::BuildEnDict`.
unfoldable pub build_en_dict : Settings → Files → DictProducer → DictProducer
build_en_dict config files p =
    let stop_word = read_stop_word files [] (setting config (bytes "stop_word_eng")) in
    elim (files (setting config (bytes "english"))) [
      | none ↦ record p { dict = [] }
      | some s ↦ record p { dict = count_en_lines stop_word [] (lines s) }
    ]

-- `DictProducer::IsAlphaNumber`: no multi-byte character at the front.
unfoldable pub is_alpha_number : Text → Bool
unfolding first_byte
is_alpha_number word =
    if bit_and (first_byte word) 0x80 == 0x0
    then true
    else if bit_and (first_byte word) 0xE0 == 0xE0
    then false
    else true

unfoldable pub visible_names : List Text → List Text
visible_names [] = []
visible_names (n ∷ ns) =
    if n == bytes "." || n == bytes ".." then visible_names ns else n ∷ visible_names ns

-- `DictProducer::GetFileName`, from what `readdir` gives for the directory.
unfoldable pub get_file_name : (Text → Option (List Text)) → Text → List Text → List Text
unfolding visible_names
get_file_name directory path vec = elim (directory path) [
  | none ↦ vec
  | some names ↦ vec ++ visible_names names
]

-- The file loop of `BuildCnDict`: the lines read so far, and whether every file opened.
unfoldable pub read_articles : Files → Text → List Text → List Text → List Text × Bool
read_articles files path file [] = (file, true)
read_articles files path file (name ∷ rest) = elim (files (path ++ name)) [
  | none ↦ (file, false)
  | some s ↦ read_articles files path (file ++ lines s) rest
]

unfoldable pub count_cn_words : List Text → List (Text × ℕ) → List Text → List (Text × ℕ)
unfolding count_word is_alpha_number
count_cn_words stop_word dictmap [] = dictmap
count_cn_words stop_word dictmap (word ∷ rest) =
    count_cn_words stop_word
      (if is_alpha_number word then dictmap else count_word stop_word dictmap word) rest

module _ (cut : Text → List Text → List Text) (directory : Text → Option (List Text)) where
  -- The second loop of `BuildCnDict`; the word vector is handed from line to line.
  unfoldable pub count_cn_lines :
      List Text → List Text → List (Text × ℕ) → List Text → List (Text × ℕ)
  unfolding count_cn_words
  count_cn_lines stop_word wordvec dictmap [] = dictmap
  count_cn_lines stop_word wordvec dictmap (line ∷ rest) =
      let wordvec' = cut line wordvec in
      count_cn_lines stop_word wordvec' (count_cn_words stop_word dictmap wordvec') rest

  -- `DictProducer::BuildCnDict`.
  unfoldable pub build_cn_dict : Settings → Files → DictProducer → DictProducer
  build_cn_dict config files p =
      let stop_word = read_stop_word files [] (setting config (bytes "stop_word_zh")) in
      let path = setting config (bytes "dir_art") in
      let (file, opened) = read_articles files path p.file (get_file_name directory path []) in
      if opened
      then record p { file = file; dict = count_cn_lines stop_word [] [] file }
      else record p { file = file; dict = [] }

-- The set of a character in `_index`.
unfoldable pub postings : Text → List (Text × List ℕ) → List ℕ
postings letter index = elim (find letter index) [ none ↦ [] | some s ↦ s ]

-- `_index[letter].insert(idx)`, for each letter of a word.
unfoldable pub post_letters : ℕ → List Text → List (Text × List ℕ) → List (Text × List ℕ)
unfolding postings
post_letters idx [] index = index
post_letters idx (letter ∷ rest) index =
    post_letters idx rest (put text_before letter (add ltb idx (postings letter index)) index)

abbrev pub letter_size : Language → ℕ
letter_size cn = 3
letter_size eng = 1

-- The loop of `CreateIndex`, at line `idx`.
unfoldable pub post_words : ℕ → ℕ → List (Text × ℕ) → List (Text × List ℕ) → List (Text × List ℕ)
unfolding post_letters
post_words size idx [] index = index
post_words size idx ((word, freq) ∷ rest) index =
    post_words size (suc idx) rest (post_letters idx (pieces (length word) size word) index)

-- `DictProducer::CreateIndex`.
unfoldable pub create_index : Language → DictProducer → DictProducer
unfolding post_words
create_index type p = record p { index = post_words (letter_size type) 0 p.dict p.index }

unfoldable pub print_entry : Text × ℕ → Text
print_entry (word, freq) = word ++ 9 ∷ print_nat freq

unfoldable pub print_lines : List ℕ → Text
print_lines [] = []
print_lines (idx ∷ rest) = 32 ∷ print_nat idx ++ print_lines rest

unfoldable pub print_posting : Text × List ℕ → Text
unfolding print_lines
print_posting (letter, s) = letter ++ 9 ∷ print_lines s

-- What `Store` writes: a line for each item.
unfoldable pub dict_text : DictProducer → Text
unfolding print_entry
dict_text p = unlines (map print_entry p.dict)

unfoldable pub index_text : DictProducer → Text
unfolding print_posting
index_text p = unlines (map print_posting p.index)

-- `ofs.open(path)` and writing to it, where the path can be written.
unfoldable pub write : (Text → Bool) → Text → Text → Files → Files
write writable path s files q = if writable path && path == q then some s else files q

abbrev pub dict_path : Settings → Language → Text
dict_path config cn = setting config (bytes "dict_zh")
dict_path config eng = setting config (bytes "dict_eng")

abbrev pub index_path : Settings → Language → Text
index_path config cn = setting config (bytes "index_zh")
index_path config eng = setting config (bytes "index_eng")

-- `DictProducer::Store`: both files are truncated first.
unfoldable pub store : Settings → (Text → Bool) → Language → DictProducer → Files → Files × ℤ
unfolding write
store config writable type p files =
    let dictfile = dict_path config type in
    let indexfile = index_path config type in
    let opened = write writable indexfile [] (write writable dictfile [] files) in
    if writable dictfile && writable indexfile
    then (
      write writable indexfile (index_text p) (write writable dictfile (dict_text p) opened),
      pos 0,
    )
    else (opened, negsuc 0)

-- `DictProducer::GetIdx`.
get_idx_from : ℕ → ℕ → Text → List (Text × ℕ) → ℕ
get_idx_from idx size word [] = size + 1
get_idx_from idx size word ((w, n) ∷ rest) =
    if w == word then idx else get_idx_from (suc idx) size word rest

unfoldable pub get_idx : DictProducer → Text → ℕ
unfolding get_idx_from
get_idx p word = get_idx_from 0 (length p.dict) word p.dict
