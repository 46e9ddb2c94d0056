-- ===== src/Common/SplitTool/Counts.antt =====
-- What `SplitTool::Cut` of src/common/split_tool.cc counts.
use serach_engine.Base.{
  ℕ, suc, ◌+◌, ◌≡◌, refl, ◌∙◌, Text, bytes, Bool, List, [], ◌∷◌, none, some, if◌then◌else◌, text_eq,
  ◌==◌, same_iff, arith, Bool-cases, Option-cases, inl, inr,
}
use serach_engine.Base.Maps.{find, put, count_of, find-put, unordered}
use serach_engine.Base.Sets.{contains}
use serach_engine.Common.Configuration.{Files, Settings, setting}
use serach_engine.Common.SplitTool.{read_stop_words, count_segments, cut_words, cut_counts}

-- How often a word stands among the segments, a stop word counting nothing.
unfoldable pub segments_of : List Text → Text → List Text → ℕ
segments_of stop w [] = 0
segments_of stop w (x ∷ xs) =
    let rest = segments_of stop w xs in
    if contains x stop then rest else if x == w then suc rest else rest

count_of-put :
    (x w : Text) (n : ℕ) (m : List (Text × ℕ))
    → count_of w (put unordered x n m) ≡ (if x == w then n else count_of w m)
unfolding count_of
count_of-put x w n m = ground (arith, find-put unordered x w n m)

count_of-none : (x : Text) (m : List (Text × ℕ)) → find x m ≡ none → count_of x m ≡ 0
unfolding count_of
count_of-none x m h = rw (h, count_of) refl

count_of-some : (x : Text) (n : ℕ) (m : List (Text × ℕ)) → find x m ≡ some n → count_of x m ≡ n
unfolding count_of
count_of-some x n m h = rw (h, count_of) refl

count_of-count_segments :
    (stop ws : List Text) (m : List (Text × ℕ)) (w : Text)
    → count_of w (count_segments stop ws m) ≡ count_of w m + segments_of stop w ws
unfolding count_segments segments_of
count_of-count_segments stop [] m w = omega arith
count_of-count_segments stop (x ∷ ws) m w = elim (Bool-cases (contains x stop)) [
  | inl s ↦ rw s (count_of-count_segments stop ws m w)
  | inr s ↦ elim (Option-cases (find x m)) [
    | inl new ↦
        rw (s, new)
          (count_of-count_segments stop ws (put unordered x 1 m) w
            ∙ counted 1 (omega (arith, count_of-none x m new)))
    | inr (n, old) ↦
        rw (s, old)
          (count_of-count_segments stop ws (put unordered x (suc n) m) w
            ∙ counted (suc n) (omega (arith, count_of-some x n m old)))
  ]
]
  where
    counted :
        (n : ℕ)
        → n ≡ suc (count_of x m)
        → count_of w (put unordered x n m) + segments_of stop w ws
          ≡ count_of w m + (if x == w then suc (segments_of stop w ws) else segments_of stop w ws)
    counted n e = ground (arith, e, count_of-put x w n m, same_iff x w)

-- Cut into a map adds to the count of each word as often as the chosen segmenter gives it, and
-- nothing for a stop word.
pub cut_counts-segments_of :
    (jieba seg : Text → List Text) (config : Settings) (files : Files) (flag : Bool) (str : Text)
    (m : List (Text × ℕ)) (w : Text)
    → count_of w (cut_counts jieba seg config files flag str m)
      ≡ count_of w m
        + segments_of
            (read_stop_words files [] (setting config (bytes "stop_word_zh")))
            w
            (if flag then jieba str else seg str)
unfolding cut_counts cut_words
cut_counts-segments_of jieba seg config files flag str m w =
    count_of-count_segments (read_stop_words files [] (setting config (bytes "stop_word_zh")))
      (if flag then jieba str else seg str) m w
