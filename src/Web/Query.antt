-- ===== src/Web/Query.antt =====
-- `WebPageQuery` of src/web/web_page_query.cc. The segmenter behind `Cut` and the arithmetic on
-- `double` are parameters.
pub mod Pages
pub mod Ranking
pub mod Total
pub mod Words
pub mod Answers
mod Tests
use serach_engine.Base.{
  ℕ, suc, Text, bytes, Bool, true, Outcome, Fault, ok, fault, ◌>>=◌, List, [], ◌∷◌, ◌++◌, Option,
  none, some, length, if◌then◌else◌, nat_beq, nat_eq, text_eq,
}
use serach_engine.Base.Maps.{find, insert, bump, unordered}
use serach_engine.Web.Caculate.{caculate_value, sum_squares}
use serach_engine.Web.Double.{Double}
use serach_engine.Web.Preprocessor.{Preprocessor}
use serach_engine.Web.WebPage.{WebPage}

-- The inner loop of `GetRelativePages`: the documents of one word.
unfoldable pub count_pages {ℓ} : {W : Type ℓ} → List (ℕ × W) → List (ℕ × ℕ) → List (ℕ × ℕ)
count_pages [] counts = counts
count_pages ((doc_id, w) ∷ rest) counts = count_pages rest (bump doc_id counts)

-- The outer loop: nothing at the first word that the table does not have.
unfoldable pub count_all {ℓ} :
    {W : Type ℓ}
    → List (Text × ℕ)
    → List (Text × List (ℕ × W))
    → List (ℕ × ℕ)
    → Option (List (ℕ × ℕ))
unfolding count_pages
count_all [] table counts = some counts
count_all ((word, n) ∷ rest) table counts = elim (find word table) [
  | none ↦ none
  | some docs ↦ count_all rest table (count_pages docs counts)
]

-- The last loop: the documents with the count `n`.
unfoldable pub select : ℕ → List (ℕ × ℕ) → List ℕ
select n [] = []
select n ((doc_id, count) ∷ rest) =
    if nat_beq count n then doc_id ∷ select n rest else select n rest

-- `WebPageQuery::GetRelativePages`.
unfoldable pub get_relative_pages {ℓ} :
    {W : Type ℓ} → List (Text × ℕ) → List (Text × List (ℕ × W)) → List ℕ
unfolding select
get_relative_pages words table = elim (count_all words table []) [
  | none ↦ []
  | some counts ↦ select (length words) counts
]

-- The loop of `CreateJson`; a document that the index does not have is undefined.
unfoldable pub create_json : {W : Type 0} → List ℕ → List (ℕ × WebPage W) → Outcome Text
create_json [] pages = ok []
create_json (doc_id ∷ rest) pages = do
  after ← create_json rest pages
  elim (find doc_id pages) [
    | none ↦ fault Fault.undefined
    | some page ↦ ok (
        bytes "------------------------\n"
        ++ (bytes "<title> "
            ++ (page.rss_item.title
                ++ (bytes "\n"
                    ++ (bytes "<abstract> "
                        ++ (page.doc_abstract
                            ++ (bytes "\n"
                                ++ (bytes "<link> "
                                    ++ (page.rss_item.link
                                        ++ (bytes "\n" ++ (bytes "\n" ++ after)))))))))))
  ]

-- `WebPageQuery::NoAnswer`.
abbrev pub no_answer : Text
no_answer = bytes "No answer\n"

module _ (D : Double) where
  -- The weights of the query's words in one page.
  unfoldable pub query_vector :
      List (Text × ℕ) → List (Text × D.Carrier) → List (Text × D.Carrier) → List (Text × D.Carrier)
  query_vector [] all made = made
  query_vector ((word, n) ∷ rest) all made = elim (find word all) [
    | none ↦ query_vector rest all made
    | some w ↦ query_vector rest all (insert unordered word w made)
  ]

  -- The loop of `CaculateRelativePagesVectors`.
  unfoldable pub page_vectors :
      Preprocessor D.Carrier
      → List (Text × ℕ)
      → List ℕ
      → Outcome (List (ℕ × List (Text × D.Carrier)))
  unfolding query_vector
  page_vectors pre words [] = ok []
  page_vectors pre words (doc_id ∷ rest) = elim (find doc_id pre.indexed_page_lib_list) [
    | none ↦ fault Fault.undefined
    | some page ↦ do
      vectors ← page_vectors pre words rest
      let all =
          caculate_value D page.term_frequencies pre.document_frequencies (length pre.page_lib_list)
      ok ((doc_id, query_vector words all []) ∷ vectors)
  ]

  -- The first loop of `CaculateCosSimilarity`, which throws on a word that `y` does not have.
  unfoldable pub dot_product :
      List (Text × D.Carrier) → List (Text × D.Carrier) → D.Carrier → Outcome D.Carrier
  dot_product [] y sum = ok sum
  dot_product ((word, w) ∷ rest) y sum = elim (find word y) [
    | none ↦ fault Fault.runtime_error
    | some v ↦ dot_product rest y (D.plus sum (D.times w v))
  ]

  -- `WebPageQuery::CaculateCosSimilarity`.
  unfoldable pub caculate_cos_similarity :
      List (Text × D.Carrier) → List (Text × D.Carrier) → Outcome D.Carrier
  unfolding dot_product
  caculate_cos_similarity x y = do
    sum ← dot_product x y (D.of_nat 0)
    let x_norm = D.sqrt (sum_squares D x (D.of_nat 0))
    let y_norm = D.sqrt (sum_squares D y (D.of_nat 0))
    ok (D.over sum (D.times x_norm y_norm))

  -- `insert` of a `map<double, DocId, greater<>>`: an equal cosine keeps its document.
  unfoldable pub insert_page : D.Carrier → ℕ → List (D.Carrier × ℕ) → List (D.Carrier × ℕ)
  insert_page c doc_id [] = (c, doc_id) ∷ []
  insert_page c doc_id ((d, other) ∷ rest) =
      if D.greater c d
      then (c, doc_id) ∷ (d, other) ∷ rest
      else if D.greater d c
      then (d, other) ∷ insert_page c doc_id rest
      else (d, other) ∷ rest

  -- The first loop of `GetPagesOrder`.
  unfoldable pub rank_pages :
      List (Text × D.Carrier)
      → List (ℕ × List (Text × D.Carrier))
      → List (D.Carrier × ℕ)
      → Outcome (List (D.Carrier × ℕ))
  unfolding insert_page caculate_cos_similarity
  rank_pages base [] ranked = ok ranked
  rank_pages base ((doc_id, vector) ∷ rest) ranked = do
    c ← caculate_cos_similarity base vector
    rank_pages base rest (insert_page c doc_id ranked)

  unfoldable pub doc_ids : List (D.Carrier × ℕ) → List ℕ
  doc_ids [] = []
  doc_ids ((c, doc_id) ∷ rest) = doc_id ∷ doc_ids rest

  -- `WebPageQuery::GetPagesOrder`.
  unfoldable pub get_pages_order :
      List (Text × D.Carrier) → List (ℕ × List (Text × D.Carrier)) → Outcome (List ℕ)
  unfolding rank_pages doc_ids
  get_pages_order base vectors = do ranked ← rank_pages base vectors []; ok (doc_ids ranked)

  -- `WebPageQuery::DoQuery`.
  unfoldable pub do_query : (Text → List (Text × ℕ)) → Preprocessor D.Carrier → Text → Outcome Text
  unfolding page_vectors get_pages_order
  do_query cut pre sought = do
    let words = cut sought
    let base = caculate_value D words pre.document_frequencies (length pre.page_lib_list)
    vectors ← page_vectors pre words (get_relative_pages words pre.invert_index_table)
    elim vectors [
      | [] ↦ ok no_answer
      | v ∷ vs ↦ do
        order ← get_pages_order base (v ∷ vs)
        create_json order pre.indexed_page_lib_list
    ]

-- `WebPageQuery::Cut`: the segmenter counts into an empty map, and leaves out the stop words.
unfoldable pub cut_sought :
    (Bool → Text → List (Text × ℕ) → List (Text × ℕ)) → Text → List (Text × ℕ)
cut_sought cut sought = cut true sought []
