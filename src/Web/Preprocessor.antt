-- ===== src/Web/Preprocessor.antt =====
-- `PageLibPreprocessor` of src/web/page_lib_preprocessor.cc. The segmenter, the keyword extractor
-- and the similarity hash are parameters, as the code of other projects.
pub mod Hashed
pub mod Redundant
mod Tests
use serach_engine.Base.{
  ℕ, zero, suc, ◌+◌, Text, bytes, Bool, true, false, Outcome, Fault, ok, fault, ◌>>=◌, List, [],
  ◌∷◌, ◌++◌, Option, none, some, length, get_elem?, if◌then◌else◌, nat_eq, text_eq,
}
use serach_engine.Base.Maps.{find, put, insert, bump, count_of, unordered}
use serach_engine.Base.Sets.{contains}
use serach_engine.Web.Double.{Double}
use serach_engine.Web.PageLib.{Offsets, written}
use serach_engine.Web.WebPage.{RssItem, WebPage}
use serach_engine.Web.WebPage

pub record Preprocessor (W : Type 0) : Type 0 where
  pub page_lib_list : List (WebPage W)
  pub indexed_page_lib_list : List (ℕ × WebPage W)
  pub offset_lib : Offsets
  pub document_frequencies : List (Text × ℕ)
  pub invert_index_table : List (Text × List (ℕ × W))

-- `for (pair : page._term_frequencies) _document_frequencies[pair.first] += 1`.
unfoldable pub add_terms : List (Text × ℕ) → List (Text × ℕ) → List (Text × ℕ)
add_terms [] df = df
add_terms ((term, n) ∷ rest) df = add_terms rest (bump term df)

module _ {W : Type 0} where
  -- The inner loop of `RmRedundantPages`: the pages behind a page that are not equal to it. Each
  -- round reads both numbers.
  unfoldable pub keep_unequal :
      (ℕ → ℕ → Bool) → WebPage W → List (WebPage W) → Outcome (List (WebPage W))
  unfolding WebPage.get_sim_hash_value
  keep_unequal is_equal it [] = ok []
  keep_unequal is_equal it (pos ∷ rest) = do
    lhs ← WebPage.get_sim_hash_value it
    rhs ← WebPage.get_sim_hash_value pos
    kept ← keep_unequal is_equal it rest
    ok (if is_equal lhs rhs then kept else pos ∷ kept)

  -- The outer loop, on fuel: the list only gets shorter.
  unfoldable pub rm_from : (ℕ → ℕ → Bool) → ℕ → List (WebPage W) → Outcome (List (WebPage W))
  unfolding keep_unequal
  rm_from is_equal zero pages = ok pages
  rm_from is_equal (suc fuel) [] = ok []
  rm_from is_equal (suc fuel) (it ∷ rest) = do
    kept ← keep_unequal is_equal it rest
    more ← rm_from is_equal fuel kept
    ok (it ∷ more)

  -- `PageLibPreprocessor::RmRedundantPages`.
  unfoldable pub rm_redundant_pages : (ℕ → ℕ → Bool) → Preprocessor W → Outcome (Preprocessor W)
  unfolding rm_from
  rm_redundant_pages is_equal p = do
    pages ← rm_from is_equal (length p.page_lib_list) p.page_lib_list
    ok (record p { page_lib_list = pages })

  module _ (extract : Text → List (Text × W)) (make : Text → ℕ) where
    -- `PageLibPreprocessor::SimHash`.
    unfoldable pub sim_hash : WebPage W → WebPage W
    sim_hash page = elim page.rss_item.description [
      | [] ↦ page
      | c ∷ s ↦ record page { keyword_list = extract (c ∷ s); simhash_value = some (make (c ∷ s)) }
    ]

    -- The loop of `CreatePageLibList`, at index `i`; both vectors have one element for each page.
    unfoldable pub create_pages : ℕ → ℕ → List Text → List RssItem → Outcome (List (WebPage W))
    unfolding sim_hash
    create_pages unset i [] items = ok []
    create_pages unset i (page ∷ pages) [] = fault Fault.undefined
    create_pages unset i (page ∷ pages) (item ∷ items) = do
      rest ← create_pages unset (suc i) pages items
      let made : WebPage W = record (WebPage.init unset page item) { doc_id = suc i }
      ok (WebPage.process_doc (sim_hash made) ∷ rest)

    -- `PageLibPreprocessor::CreatePageLibList`, on an empty list as `Do` starts with.
    unfoldable pub create_page_lib_list :
        ℕ → List Text → List RssItem → Preprocessor W → Outcome (Preprocessor W)
    unfolding create_pages
    create_page_lib_list unset ripe_pages rss_items p = do
      pages ← create_pages unset 0 ripe_pages rss_items
      ok (record p { page_lib_list = p.page_lib_list ++ pages })

  -- The loop of `PageLibPreprocessor::Cut`; `cut` counts the words of a text into a map.
  module _ (cut : Text → List (Text × ℕ) → List (Text × ℕ)) where
    unfoldable pub cut_pages :
        List (WebPage W) → List (Text × ℕ) → List (WebPage W) × List (Text × ℕ)
    unfolding add_terms
    cut_pages [] df = ([], df)
    cut_pages (page ∷ rest) df =
        let terms = cut page.rss_item.description page.term_frequencies in
        let (pages, df') = cut_pages rest (add_terms terms df) in
        (record page { term_frequencies = terms } ∷ pages, df')

    unfoldable pub cut_all : Preprocessor W → Preprocessor W
    unfolding cut_pages
    cut_all p =
        let (pages, df) = cut_pages p.page_lib_list p.document_frequencies in
        record p { page_lib_list = pages; document_frequencies = df }

  -- The page loop of `StoreOnDisk`: `_page_lib_list[doc_id]` out of range is undefined.
  unfoldable pub write_pages :
      List (WebPage W) → ℕ → List (WebPage W) → Offsets → Offsets → Outcome (Offsets × Offsets)
  write_pages list offset [] records offsets = ok (records, offsets)
  write_pages list offset (page ∷ rest) records offsets = elim (get_elem? list page.doc_id) [
    | none ↦ fault Fault.undefined
    | some other ↦
        write_pages list (offset + length page.doc) rest
          (records ++ (page.doc_id, (offset, length other.doc)) ∷ [])
          (insert unordered (suc page.doc_id) (offset + length page.doc, length other.doc) offsets)
  ]

  -- The text of the page file.
  unfoldable pub docs_file : List (WebPage W) → Text
  docs_file [] = []
  docs_file (page ∷ rest) = page.doc ++ docs_file rest

  -- `PageLibPreprocessor::StoreOnDisk`: the page file and the offset file, `none` where it cannot be
  -- opened, and the preprocessor.
  unfoldable pub store_on_disk :
      (Text → Bool) → Preprocessor W → Outcome (Option Text × (Option Offsets × Preprocessor W))
  unfolding write_pages docs_file
  store_on_disk opens p = do
    (records, offsets) ← write_pages p.page_lib_list 0 p.page_lib_list [] p.offset_lib
    ok (
      written opens (bytes "../../data/database/new_ripe_page.data") (docs_file p.page_lib_list),
      (
        written opens (bytes "../../data/database/new_offset_lib.dat") records,
        record p { offset_lib = offsets },
      ),
    )

  -- The loop of `LoadIndexPageList`: the first page of an id stays, and each page is copied.
  unfoldable pub index_pages :
      List (WebPage W) → List (ℕ × WebPage W) → Outcome (List (ℕ × WebPage W))
  unfolding WebPage.copied
  index_pages [] m = ok m
  index_pages (page ∷ rest) m = do
    copy ← WebPage.copied page
    index_pages rest (insert unordered page.doc_id copy m)

  unfoldable pub load_index_page_list : Preprocessor W → Outcome (Preprocessor W)
  unfolding index_pages
  load_index_page_list p = do
    indexed ← index_pages p.page_lib_list p.indexed_page_lib_list
    ok (record p { indexed_page_lib_list = indexed })
