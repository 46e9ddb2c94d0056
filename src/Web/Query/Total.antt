-- ===== src/Web/Query/Total.antt =====
-- `DoQuery` of src/web/web_page_query.cc on an index that fits its page list.
use mathlib.Core.Path.{subst}
use serach_engine.Base.{
  All, ℕ, ◌≡◌, refl, sym, ◌∙◌, Text, true, ◌&&◌, List, [], ◌∷◌, some, Outcome, ok, ◌>>=◌, length,
  ◌==◌, text_eq, same_iff, nat_eq, nat_beq_iff, arith, Bool-cases, Option-cases, inl, inr,
}
use serach_engine.Base.Maps.{find}
use serach_engine.Base.Sets.{contains}
use serach_engine.Web.Caculate.{caculate_value}
use serach_engine.Web.Double.{Double}
use serach_engine.Web.InvertIndex.Listing.{has_word, has_word-cons, has_word-nil}
use serach_engine.Web.InvertIndex.{docs_of}
use serach_engine.Web.Preprocessor.{Preprocessor}
use serach_engine.Web.Query.Pages.{has, IsTable, listed, get_relative_pages-listed}
use serach_engine.Web.Query.Ranking.{AllCovered, IsFrom, get_pages_order-IsDescending}
use serach_engine.Web.Query.{
  no_answer, count_all, select, get_relative_pages, query_vector, page_vectors, get_pages_order,
  doc_ids, create_json, do_query,
}
use serach_engine.Web.WebPage.{WebPage}
use serach_engine.Web.Query.Words.{
  has_word-first, and_first, and_second, has_word-query_vector, has_word-caculate_value,
  has_word-IsCovered,
}

module _ (D : Double) where
  module _ (pre : Preprocessor D.Carrier) where
    -- The page index has a page with the number that has all these words.
    abbrev IsHit : List (Text × ℕ) → ℕ → Type 0
    IsHit words d =
        (page : WebPage D.Carrier) × (find d pre.indexed_page_lib_list ≡ some page)
        × ((w : Text) → has_word w words ≡ true → has_word w page.term_frequencies ≡ true)

    -- The page index has the numbers of the pages.
    abbrev pub AreKnown : List (ℕ × List (Text × D.Carrier)) → Type 0
    AreKnown [] = Unit {0}
    AreKnown ((d, vector) ∷ rest) =
        ((page : WebPage D.Carrier) × (find d pre.indexed_page_lib_list ≡ some page))
        × AreKnown rest

    pub page_vectors-IsHit :
        (words : List (Text × ℕ)) (ds : List ℕ)
        → All (IsHit words) ds
        → (vectors : List (ℕ × List (Text × D.Carrier))) × (page_vectors D pre words ds
            ≡ ok vectors)
          × AllCovered D
              (caculate_value D words pre.document_frequencies (length pre.page_lib_list))
              vectors
          × AreKnown vectors
    unfolding page_vectors
    page_vectors-IsHit words [] h = ([], refl, tt, tt)
    page_vectors-IsHit words (d ∷ ds) ((page, found, hits), hs) =
        let (vectors, run, covered, known) = page_vectors-IsHit words ds hs in
        let all =
          caculate_value D page.term_frequencies pre.document_frequencies
            (length pre.page_lib_list) in
        (
          (d, query_vector D words all []) ∷ vectors,
          rw (page_vectors, found, run) refl,
          (
            has_word-IsCovered D
                (caculate_value D words pre.document_frequencies (length pre.page_lib_list))
                (query_vector D words all [])
                (λ w h.
                  (ground (
                    arith,
                    h,
                    has_word-caculate_value D w words pre.document_frequencies
                        (length pre.page_lib_list),
                    has_word-query_vector D w words all [],
                    hits w,
                    has_word-caculate_value D w page.term_frequencies pre.document_frequencies
                        (length pre.page_lib_list),
                  ))),
            covered,
          ),
          ((page, found), known),
        )

    -- What the vectors are made of is known.
    IsFrom-AreKnown :
        (base : List (Text × D.Carrier)) (vectors : List (ℕ × List (Text × D.Carrier)))
        (c : D.Carrier) (d : ℕ)
        → AreKnown vectors
        → IsFrom D base vectors (c, d)
        → (page : WebPage D.Carrier) × (find d pre.indexed_page_lib_list ≡ some page)
    IsFrom-AreKnown base [] c d k f = absurd f
    IsFrom-AreKnown base ((e, vector) ∷ rest) c d k (inl (cos, same)) = rw (same) k.0
    IsFrom-AreKnown base ((e, vector) ∷ rest) c d k (inr f) = IsFrom-AreKnown base rest c d k.1 f

    pub create_json-ok :
        (base : List (Text × D.Carrier)) (vectors : List (ℕ × List (Text × D.Carrier)))
        (order : List (D.Carrier × ℕ))
        → AreKnown vectors
        → All (IsFrom D base vectors) order
        → (text : Text) × (create_json (doc_ids D order) pre.indexed_page_lib_list ≡ ok text)
    unfolding create_json doc_ids
    create_json-ok base vectors [] k h = ([], refl)
    create_json-ok base vectors ((c, d) ∷ order) k (f, fs) =
        let (after, run) = create_json-ok base vectors order k fs in
        let (page, found) = IsFrom-AreKnown base vectors c d k f in
        rw (create_json, doc_ids, run, found) (_, refl)

    -- Each set of the table has a page once, and a page that it lists under a word is in the page
    -- index and has the word.
    pub record IsIndex : Type 0 where
      pub table : IsTable pre.invert_index_table
      pub known :
          (d : ℕ) (w : Text)
          → has d (docs_of w pre.invert_index_table) ≡ true
          → (page : WebPage D.Carrier) × (find d pre.indexed_page_lib_list ≡ some page)
            × (has_word w page.term_frequencies ≡ true)

    listed-has :
        (d : ℕ) (w : Text) (words : List (Text × ℕ))
        → listed d words pre.invert_index_table ≡ true
        → has_word w words ≡ true
        → has d (docs_of w pre.invert_index_table) ≡ true
    unfolding listed docs_of
    listed-has d w [] l h = absurd (ground (arith, h, has_word-nil ℕ w))
    listed-has d w ((x, n) ∷ words) l h = elim (Option-cases (find x pre.invert_index_table)) [
      | inl absent ↦ absurd (ground (arith, absent, l))
      | inr (docs, found) ↦
          let both : (has d docs && listed d words pre.invert_index_table) ≡ true =
            rw (listed, found) at l in
          elim (Bool-cases (x == w)) [
            | inl e ↦ rw (← (same_iff x w).0 e, docs_of, found) (and_first _ _ both)
            | inr e ↦
                listed-has d w words (and_second _ _ both)
                  (ground (arith, h, e, has_word-cons x w n words))
          ]
    ]

    listed-IsHit :
        (d : ℕ) (word : Text) (n : ℕ) (rest : List (Text × ℕ))
        → IsIndex
        → listed d ((word, n) ∷ rest) pre.invert_index_table ≡ true
        → IsHit ((word, n) ∷ rest) d
    listed-IsHit d word n rest v l =
        let (page, found, first) =
          v.known d word (listed-has d word ((word, n) ∷ rest) l (has_word-first word n rest)) in
        (
          page,
          found,
          λ w h.
              let (other, found', has_it) = v.known d w (listed-has d w ((word, n) ∷ rest) l h) in
              let same_page : other ≡ page = cc in
              subst (λ p. has_word w p.term_frequencies ≡ true) same_page has_it,
        )

    All-contains : (P : ℕ → Type 0) (l : List ℕ) → ((d : ℕ) → contains d l ≡ true → P d) → All P l
    unfolding contains
    All-contains P [] h = tt
    All-contains P (d ∷ l) h =
        (h d (ground (arith, nat_beq_iff d d)), All-contains P l (λ e m. h e (ground (arith, m))))

    pub get_relative_pages-IsHit :
        (words : List (Text × ℕ))
        → IsIndex
        → All (IsHit words) (get_relative_pages words pre.invert_index_table)
    unfolding get_relative_pages count_all select
    get_relative_pages-IsHit [] v = tt
    get_relative_pages-IsHit ((word, n) ∷ rest) v =
        All-contains (IsHit ((word, n) ∷ rest))
          (get_relative_pages ((word, n) ∷ rest) pre.invert_index_table)
          (λ d m.
            listed-IsHit d word n rest v
              (sym (get_relative_pages-listed d word n rest pre.invert_index_table v.table) ∙ m))

    answer-ok :
        (base : List (Text × D.Carrier)) (vectors : List (ℕ × List (Text × D.Carrier)))
        → AllCovered D base vectors
        → AreKnown vectors
        → (answer : Text) × ((elim vectors as (λ l. Outcome Text) [
          | [] ↦ ok no_answer
          | v ∷ vs ↦ do
            order ← get_pages_order D base (v ∷ vs)
            create_json order pre.indexed_page_lib_list
        ])
            ≡ ok answer)
    answer-ok base [] c k = (no_answer, refl)
    answer-ok base (v ∷ vs) c k =
        let (order, (run, (desc, (all, from)))) = get_pages_order-IsDescending D base (v ∷ vs) c in
        let (text, made) = create_json-ok base (v ∷ vs) order k from in (text, rw (run) made)

    -- On a sound index DoQuery returns an answer, whatever the segmenter gives.
    pub do_query-ok :
        (cut : Text → List (Text × ℕ)) (sought : Text)
        → IsIndex
        → (answer : Text) × (do_query D cut pre sought ≡ ok answer)
    unfolding do_query
    do_query-ok cut sought v =
        let words = cut sought in
        let (vectors, run, covered, known) =
          page_vectors-IsHit words (get_relative_pages words pre.invert_index_table)
            (get_relative_pages-IsHit words v) in
        let (answer, made) =
          answer-ok (caculate_value D words pre.document_frequencies (length pre.page_lib_list))
            vectors covered known in
        (answer, rw (do_query, run) made)
