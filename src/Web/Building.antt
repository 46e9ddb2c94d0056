-- ===== src/Web/Building.antt =====
-- `PageLibPreprocessor::Do` of src/web/page_lib_preprocessor.cc: the steps of the preprocessor one
-- after the other.
pub mod Numbers
pub mod Sets
pub mod Sound
pub mod Undefined
pub mod Answers
pub mod NoAnswer
pub mod Orders
pub mod Ranked
pub mod Files
mod Tests
use serach_engine.Base.{ℕ, Text, Bool, Outcome, ok, ◌>>=◌, List, [], ◌∷◌}
use serach_engine.Web.Double.{Double}
use serach_engine.Web.InvertIndex.{build_invert_index_table}
use serach_engine.Web.Preprocessor.{
  Preprocessor, create_page_lib_list, rm_redundant_pages, cut_all, load_index_page_list,
}
use serach_engine.Web.WebPage.{RssItem}

module _ (D : Double) (extract : Text → List (Text × D.Carrier)) (make : Text → ℕ)
    (is_equal : ℕ → ℕ → Bool) (cut : Text → List (Text × ℕ) → List (Text × ℕ)) where
  -- `PageLibPreprocessor::Do`; `unset` is what the memory of a page's number
  -- holds at first.
  unfoldable pub do_all :
      ℕ → List Text → List RssItem → Preprocessor D.Carrier → Outcome (Preprocessor D.Carrier)
  do_all unset ripe_pages rss_items p = do
    created ← create_page_lib_list extract make unset ripe_pages rss_items p
    kept ← rm_redundant_pages is_equal created
    load_index_page_list (build_invert_index_table D (cut_all cut kept))
