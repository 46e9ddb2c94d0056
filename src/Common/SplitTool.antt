-- ===== src/Common/SplitTool.antt =====
-- `SplitTool` of src/common/split_tool.cc. The two segmenters are parameters.
pub mod Counts
mod Tests
use serach_engine.Base.{
  ℕ, suc, Text, bytes, Bool, List, [], ◌∷◌, ◌++◌, none, some, if◌then◌else◌, text_eq,
}
use serach_engine.Base.Maps.{find, put, unordered}
use serach_engine.Base.Sets.{contains}
use serach_engine.Common.Configuration.{Files, Settings, setting, add_words}
use serach_engine.Streams.{words}

-- `SplitTool::ReadStopWord`: a file that does not open adds nothing.
unfoldable pub read_stop_words : Files → List Text → Text → List Text
unfolding add_words
read_stop_words files stopword path = elim (files path) [
  | none ↦ stopword
  | some s ↦ add_words stopword (words s)
]

-- The loop of the second `SplitTool::Cut`.
unfoldable pub count_segments : List Text → List Text → List (Text × ℕ) → List (Text × ℕ)
count_segments stopword [] wordsmap = wordsmap
count_segments stopword (word ∷ rest) wordsmap =
    if contains word stopword
    then count_segments stopword rest wordsmap
    else elim (find word wordsmap) [
      | some n ↦ count_segments stopword rest (put unordered word (suc n) wordsmap)
      | none ↦ count_segments stopword rest (put unordered word 1 wordsmap)
    ]

module _ (jieba seg : Text → List Text) where
  -- The first `SplitTool::Cut`, into a vector.
  unfoldable pub cut_words : Bool → Text → List Text → List Text
  cut_words flag str wordsvec = wordsvec ++ (if flag then jieba str else seg str)

  -- The second `SplitTool::Cut`, into a map.
  unfoldable pub cut_counts : Settings → Files → Bool → Text → List (Text × ℕ) → List (Text × ℕ)
  unfolding cut_words count_segments read_stop_words
  cut_counts config files flag str wordsmap =
      count_segments (read_stop_words files [] (setting config (bytes "stop_word_zh")))
        (cut_words flag str []) wordsmap
