-- ===== src/Web/Query/Tests.antt =====
-- Runs of the page search of src/web/web_page_query.cc, with natural numbers for `double`.
use serach_engine.Base.{some, All, ℕ, ◌≡◌, refl, Text, ok, List, [], ◌∷◌, nat_eq, text_eq, same}
use serach_engine.Base.Maps.{find}
use serach_engine.Base.Sets.{contains}
use serach_engine.Web.Counting.{counting}
use serach_engine.Web.Preprocessor.{Preprocessor}
use serach_engine.Web.WebPage.{WebPage}
use serach_engine.Web.Query.Pages.{has, IsTable, listed, get_relative_pages-listed}
use serach_engine.Web.Query.Ranking.{
  IsDescending, AllCovered, AllPlaced, IsFrom, get_pages_order-IsDescending,
}
use serach_engine.Web.Query.{get_relative_pages, get_pages_order, doc_ids}

-- The word `a` is in the pages 1 and 2.
abbrev table : List (Text × List (ℕ × ℕ))
table = (97 ∷ [], (1, 0) ∷ (2, 0) ∷ []) ∷ []

table-IsTable : IsTable table
unfolding find has
table-IsTable = ((refl, (refl, tt)), tt)

get_relative_pages-listed_example :
    contains 2 (get_relative_pages ((97 ∷ [], 1) ∷ []) table) ≡ listed 2 ((97 ∷ [], 1) ∷ []) table
get_relative_pages-listed_example = get_relative_pages-listed 2 (97 ∷ []) 1 [] table table-IsTable

covered : AllCovered counting ((97 ∷ [], 2) ∷ []) ((1, (97 ∷ [], 2) ∷ []) ∷ [])
unfolding find same
covered = (((2, refl), tt), tt)

get_pages_order-IsDescending_example :
    (order : List (ℕ × ℕ)) × ((get_pages_order counting
          ((97 ∷ [], 2) ∷ [])
          ((1, (97 ∷ [], 2) ∷ []) ∷ [])
        ≡ ok (doc_ids counting order))
      × (IsDescending counting order
          × (AllPlaced counting ((97 ∷ [], 2) ∷ []) ((1, (97 ∷ [], 2) ∷ []) ∷ []) order
              × All (IsFrom counting ((97 ∷ [], 2) ∷ []) ((1, (97 ∷ [], 2) ∷ []) ∷ [])) order)))
get_pages_order-IsDescending_example =
    get_pages_order-IsDescending counting ((97 ∷ [], 2) ∷ []) ((1, (97 ∷ [], 2) ∷ []) ∷ []) covered

-- The page 1 has the word `a` twice.
abbrev page : WebPage ℕ
page = record {
  doc = [];
  rss_item = record { title = []; link = []; author = []; description = [] };
  doc_abstract = [];
  doc_id = 1;
  top_words = [];
  keyword_list = [];
  simhash_value = some 0;
  term_frequencies = (97 ∷ [], 2) ∷ [];
}

abbrev pre : Preprocessor ℕ
pre = record {
  page_lib_list = page ∷ [];
  indexed_page_lib_list = [];
  offset_lib = [];
  document_frequencies = (97 ∷ [], 1) ∷ [];
  invert_index_table = [];
}
