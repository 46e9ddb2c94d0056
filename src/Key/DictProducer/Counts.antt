-- ===== src/Key/DictProducer/Counts.antt =====
-- The frequencies that `BuildEnDict` counts, and the text that it counts them in.
use serach_engine.Base.{
  ℕ, suc, ◌+◌, ◌≡◌, refl, ap, ◌∙◌, Text, bytes, true, ◌&&◌, ◌||◌, List, [], ◌∷◌, ◌++◌, some, All,
  if◌then◌else◌, ◌==◌, text_eq, same_iff, text_before, nat_eq, leb, arith, Option-cases, inl, inr,
}
use serach_engine.Base.Maps.{find, count_of, find-put}
use serach_engine.Base.Sets.{contains}
use serach_engine.Common.Configuration.{Files, Settings, setting}
use serach_engine.Key.DictProducer.{
  DictProducer, pre_process, pre_process_byte, read_stop_word, count_word, count_words,
  count_en_lines, build_en_dict,
}
use serach_engine.Streams.{lines, words}

-- How often a word stands in a list.
unfoldable pub occurrences : Text → List Text → ℕ
occurrences w [] = 0
occurrences w (x ∷ xs) = if x == w then suc (occurrences w xs) else occurrences w xs

-- The words of a text after `PreProcess`, line by line.
unfoldable pub words_of_lines : List Text → List Text
words_of_lines [] = []
words_of_lines (l ∷ ls) = words (pre_process l) ++ words_of_lines ls

occurrences-append :
    (w : Text) (xs ys : List Text) → occurrences w (xs ++ ys) ≡ occurrences w xs + occurrences w ys
unfolding occurrences
occurrences-append w [] ys = omega arith
occurrences-append w (x ∷ xs) ys = ground (arith, occurrences-append w xs ys)

-- What the dictionary counts of a word: nothing of a stop word.
abbrev pub frequency : List Text → Text → List Text → ℕ
frequency stop w ws = if contains w stop then 0 else occurrences w ws

count_of-count_word :
    (stop : List Text) (m : List (Text × ℕ)) (x w : Text)
    → count_of w (count_word stop m x) ≡ (
        if contains x stop
        then count_of w m
        else if x == w
        then suc (count_of w m)
        else count_of w m)
unfolding count_word count_of
count_of-count_word stop m x w = elim (Option-cases (find x m)) [
  | inl new ↦ ground (arith, new, same_iff x w, find-put text_before x w 1 m)
  | inr (n, old) ↦ ground (arith, old, same_iff x w, find-put text_before x w (suc n) m)
]

count_of-count_words :
    (stop : List Text) (m : List (Text × ℕ)) (ws : List Text) (w : Text)
    → count_of w (count_words stop m ws) ≡ count_of w m + frequency stop w ws
unfolding count_words occurrences
count_of-count_words stop m [] w = ground arith
count_of-count_words stop m (x ∷ ws) w =
    count_of-count_words stop (count_word stop m x) ws w
    ∙ ground (arith, count_of-count_word stop m x w, same_iff x w)

count_of-nil : (w : Text) → count_of w [] ≡ 0
unfolding count_of find
count_of-nil w = refl

count_of-count_en_lines :
    (stop : List Text) (m : List (Text × ℕ)) (ls : List Text) (w : Text)
    → count_of w (count_en_lines stop m ls) ≡ count_of w m + frequency stop w (words_of_lines ls)
unfolding count_en_lines words_of_lines occurrences
count_of-count_en_lines stop m [] w = ground arith
count_of-count_en_lines stop m (l ∷ ls) w =
    count_of-count_en_lines stop (count_words stop m (words (pre_process l))) ls w
    ∙ ground (
      arith,
      count_of-count_words stop m (words (pre_process l)) w,
      occurrences-append w (words (pre_process l)) (words_of_lines ls),
    )

build_en_dict-eq :
    (config : Settings) (files : Files) (p : DictProducer) {s : Text}
    → files (setting config (bytes "english")) ≡ some s
    → (build_en_dict config files p).dict
      ≡ count_en_lines
          (read_stop_word files [] (setting config (bytes "stop_word_eng")))
          []
          (lines s)
unfolding build_en_dict
build_en_dict-eq config files p h = rw (h, build_en_dict)

-- When the text can be opened, BuildEnDict counts every word of the preprocessed text that is no
-- stop word as often as it occurs, and no other word, whatever the dictionary held before.
pub build_en_dict-frequency :
    (config : Settings) (files : Files) (p : DictProducer) (w s : Text)
    → files (setting config (bytes "english")) ≡ some s
    → count_of w (build_en_dict config files p).dict
      ≡ frequency
          (read_stop_word files [] (setting config (bytes "stop_word_eng")))
          w
          (words_of_lines (lines s))
build_en_dict-frequency config files p w s h =
    let stop = read_stop_word files [] (setting config (bytes "stop_word_eng")) in
    let total = frequency stop w (words_of_lines (lines s)) in
    let e : count_of w (count_en_lines stop [] (lines s)) ≡ total =
      omega (arith, count_of-count_en_lines stop [] (lines s) w, count_of-nil w) in
    ap (count_of w) (build_en_dict-eq config files p h) ∙ e

-- PreProcess leaves only lower-case letters and spaces, and running it again changes nothing.
pub pre_process_letters :
    (s : Text)
    → All (λ c. (leb 97 c && leb c 122 || c == 32) ≡ true) (pre_process s)
      × (pre_process (pre_process s) ≡ pre_process s)
unfolding pre_process
pre_process_letters [] = (tt, refl)
pre_process_letters (c ∷ s) =
    let (letters, again) = pre_process_letters s in
    let (letter, same) = byte c in ((letter, letters), cc)
  where
    byte :
        (b : ℕ)
        → ((leb 97 (pre_process_byte b) && leb (pre_process_byte b) 122 || pre_process_byte b == 32)
            ≡ true)
          × (pre_process_byte (pre_process_byte b) ≡ pre_process_byte b)
    byte b = ground arith
