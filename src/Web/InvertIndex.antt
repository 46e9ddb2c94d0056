-- ===== src/Web/InvertIndex.antt =====
-- `PageLibPreprocessor::BuildInvertIndexTable` of src/web/page_lib_preprocessor.cc: for each word
-- the pages that have it, with its weight there.
pub mod Listing
use serach_engine.Base.{
  ℕ, suc, Text, Bool, ◌&&◌, ◌||◌, List, [], ◌∷◌, Option, none, some, length, if◌then◌else◌, ltb,
  nat_beq, text_eq,
}
use serach_engine.Base.Maps.{find, put, unordered}
use serach_engine.Web.Caculate.{add_weights, sum_squares}
use serach_engine.Web.Double.{Double}
use serach_engine.Web.Preprocessor.{Preprocessor}
use serach_engine.Web.WebPage.{WebPage}

-- `_document_frequencies[word]` adds a missing word with 0.
unfoldable pub touch_terms : List (Text × ℕ) → List (Text × ℕ) → List (Text × ℕ)
touch_terms [] df = df
touch_terms ((word, n) ∷ rest) df = elim (find word df) [
  | some m ↦ touch_terms rest df
  | none ↦ touch_terms rest (put unordered word 0 df)
]

-- The set of a word in the table.
unfoldable pub docs_of {ℓ} : {W : Type ℓ} → Text → List (Text × List (ℕ × W)) → List (ℕ × W)
docs_of word table = elim (find word table) [ none ↦ [] | some docs ↦ docs ]

module _ (D : Double) where
  -- `insert` of a `set<pair<DocId, double>>`.
  unfoldable pub insert_posting : ℕ → D.Carrier → List (ℕ × D.Carrier) → List (ℕ × D.Carrier)
  insert_posting id w [] = (id, w) ∷ []
  insert_posting id w ((j, v) ∷ rest) =
      if ltb id j || (nat_beq id j && D.greater v w)
      then (id, w) ∷ (j, v) ∷ rest
      else if ltb j id || (nat_beq j id && D.greater w v)
      then (j, v) ∷ insert_posting id w rest
      else (j, v) ∷ rest

  -- The last loop over a page's weights.
  unfoldable pub add_postings :
      ℕ
      → D.Carrier
      → List (Text × D.Carrier)
      → List (Text × List (ℕ × D.Carrier))
      → List (Text × List (ℕ × D.Carrier))
  unfolding insert_posting docs_of
  add_postings id norm [] table = table
  add_postings id norm ((word, w) ∷ rest) table =
      add_postings id norm rest
        (put unordered word (insert_posting id (D.over w norm) (docs_of word table)) table)

  -- The loop over the pages; the frequencies that a page reads are those before it.
  unfoldable pub index_terms :
      List (WebPage D.Carrier)
      → ℕ
      → List (Text × ℕ)
      → List (Text × List (ℕ × D.Carrier))
      → List (Text × List (ℕ × D.Carrier)) × List (Text × ℕ)
  unfolding add_postings touch_terms
  index_terms [] total df table = (table, df)
  index_terms (page ∷ rest) total df table =
      let weights = add_weights D page.term_frequencies df total [] in
      let norm = D.sqrt (sum_squares D weights (D.of_nat 0)) in
      index_terms rest total (touch_terms page.term_frequencies df)
        (add_postings page.doc_id norm weights table)

  -- `PageLibPreprocessor::BuildInvertIndexTable`.
  unfoldable pub build_invert_index_table : Preprocessor D.Carrier → Preprocessor D.Carrier
  unfolding index_terms
  build_invert_index_table p =
      let (table, df) =
        index_terms p.page_lib_list (length p.page_lib_list) p.document_frequencies
          p.invert_index_table in
      record p { invert_index_table = table; document_frequencies = df }
