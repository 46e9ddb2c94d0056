-- ===== src/Web/Preprocessor/Tests.antt =====
-- A run of the preprocessor of src/web/page_lib_preprocessor.cc.
use serach_engine.Base.{ℕ, ◌≡◌, refl, ok, some, List, [], ◌∷◌, nat_beq}
use serach_engine.Web.Preprocessor.Redundant.{
  IsUnequal, AllKept, IsThinned, rm_redundant_pages-IsUnequal,
}
use serach_engine.Web.Preprocessor.{Preprocessor, rm_redundant_pages}
use serach_engine.Web.WebPage.{WebPage}

abbrev page : ℕ → WebPage ℕ
page hash = record {
  doc = [];
  rss_item = record { title = []; link = []; author = []; description = [] };
  doc_abstract = [];
  doc_id = 1;
  top_words = [];
  keyword_list = [];
  simhash_value = some hash;
  term_frequencies = [];
}

-- The second page is like the first.
abbrev three : Preprocessor ℕ
three = record {
  page_lib_list = page 5 ∷ page 5 ∷ page 6 ∷ [];
  indexed_page_lib_list = [];
  offset_lib = [];
  document_frequencies = [];
  invert_index_table = [];
}

rm_redundant_pages-IsUnequal_example :
    (kept : List (WebPage ℕ)) × (rm_redundant_pages nat_beq three
      ≡ ok (record three { page_lib_list = kept }))
    × IsUnequal nat_beq kept
    × AllKept nat_beq three.page_lib_list kept
    × IsThinned nat_beq three.page_lib_list kept
rm_redundant_pages-IsUnequal_example =
    rm_redundant_pages-IsUnequal nat_beq three ((5, refl), ((5, refl), ((6, refl), tt)))
