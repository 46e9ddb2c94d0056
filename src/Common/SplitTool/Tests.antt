-- ===== src/Common/SplitTool/Tests.antt =====
-- A cut of src/common/split_tool.cc with a segmenter that makes every byte a word.
use serach_engine.Base.{◌+◌, ◌≡◌, Text, bytes, true, List, [], ◌∷◌, map, some, text_eq}
use serach_engine.Base.Maps.{count_of}
use serach_engine.Common.Configuration.{Files, setting}
use serach_engine.Common.SplitTool.Counts.{segments_of, cut_counts-segments_of}
use serach_engine.Common.SplitTool.{read_stop_words, cut_counts}

abbrev by_byte : Text → List Text
by_byte = map (λ c. c ∷ [])

-- The stop words are `b` alone.
abbrev files : Files
files path = some (98 ∷ [])

cut_counts-segments_of_example :
    count_of {K = Text} (97 ∷ []) (cut_counts by_byte by_byte [] files true (97 ∷ 98 ∷ 97 ∷ []) [])
    ≡ count_of {K = Text} (97 ∷ []) []
      + segments_of
          (read_stop_words files [] (setting [] (bytes "stop_word_zh")))
          (97 ∷ [])
          (by_byte (97 ∷ 98 ∷ 97 ∷ []))
cut_counts-segments_of_example =
    cut_counts-segments_of by_byte by_byte [] files true (97 ∷ 98 ∷ 97 ∷ []) [] (97 ∷ [])
