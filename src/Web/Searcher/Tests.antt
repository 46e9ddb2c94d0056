-- ===== src/Web/Searcher/Tests.antt =====
-- Searches of src/include/web/web_page_searcher.h with a Redis in memory.
use serach_engine.Base.{ℕ, Text, List, [], ◌∷◌, ◌≡◌, text_eq}
use serach_engine.Base.Int.{pos}
use serach_engine.Base.Maps.{find}
use serach_engine.Cache.Redis.Laws.{IsCoherent}
use serach_engine.Cache.Redis.Memory.{memory, memory-IsRedis}
use serach_engine.Web.Counting.{counting}
use serach_engine.Web.Preprocessor.{Preprocessor}
use serach_engine.Web.Searcher.Cached.{answer_all, process_all-answer_all}
use serach_engine.Web.Searcher.{Event, search, lapse, do_query, process_all}

abbrev nothing : Preprocessor ℕ
nothing = record {
  page_lib_list = [];
  indexed_page_lib_list = [];
  offset_lib = [];
  document_frequencies = [];
  invert_index_table = [];
}

abbrev cut : Text → List (Text × ℕ)
cut text = (text, 1) ∷ []

empty-IsCoherent : IsCoherent memory (do_query counting cut nothing) []
unfolding find
empty-IsCoherent k v h = cc

-- The same search twice, and once more when the answer has expired.
abbrev searches : List (Event counting cut nothing)
searches = search (97 ∷ []) ∷ search (97 ∷ []) ∷ lapse 60 ∷ search (97 ∷ []) ∷ []

process_all-answer_all_example :
    process_all counting cut nothing memory (pos 60) searches []
    ≡ answer_all counting cut nothing memory searches
process_all-answer_all_example =
    process_all-answer_all counting cut nothing memory 59 searches [] memory-IsRedis
      empty-IsCoherent
