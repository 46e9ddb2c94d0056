-- ===== src/Web/Building/NoAnswer.antt =====
-- When `WebPageQuery::DoQuery` of src/web/web_page_query.cc answers that it has no answer.
use serach_engine.Web.Building.Numbers.{AreDescribed}
use serach_engine.Base.{
  ℕ, ◌≡◌, ◌≢◌, ◌↔◌, refl, sym, ap, ◌∙◌, Text, Bool, false, Outcome, Fault, ok, fault, ◌>>=◌,
  >>=-eq-ok, List, [], ◌∷◌, length, arith, text_eq, nat_eq, nat_beq_iff, Option-cases, inl, inr,
}
use serach_engine.Base.Maps.{find}
use serach_engine.Base.Sets.{contains}
use serach_engine.Web.Building.Answers.{some_covers, do_all-get_relative_pages}
use serach_engine.Web.Building.Sound.{fresh}
use serach_engine.Web.Building.{do_all}
use serach_engine.Web.Caculate.{caculate_value}
use serach_engine.Web.Double.{Double}
use serach_engine.Web.Preprocessor.{Preprocessor}
use serach_engine.Web.Query.{
  no_answer, get_relative_pages, page_vectors, get_pages_order, rank_pages, insert_page, doc_ids,
  create_json, do_query, caculate_cos_similarity,
}
use serach_engine.Web.WebPage.{RssItem, WebPage}

-- The byte that an answer begins with, or 0.
abbrev begins : Outcome Text → ℕ
begins (ok (b ∷ s)) = b
begins other = 0

create_json-cons :
    {W : Type 0} (d : ℕ) (ds : List ℕ) (pages : List (ℕ × WebPage W))
    → create_json (d ∷ ds) pages ≢ ok no_answer
unfolding create_json
create_json-cons d ds pages h =
    let (after, run, made) = >>=-eq-ok (create_json ds pages) _ h in
    elim (Option-cases (find d pages)) [
      | inl absent ↦ let e : fault Fault.undefined ≡ ok no_answer = rw (absent) at made in cc
      | inr (page, found) ↦
          let e : 45 ≡ 78 = ap begins (rw (found) at made) in absurd (omega (arith, e))
    ]

-- A call that adds an element to its result does not return the empty list.
grown-nil {ℓ} :
    {A : Type ℓ} (call : Outcome (List A)) (a : A) → (call >>= (λ l. ok (a ∷ l))) ≢ ok []
grown-nil (fault e) a h = cc
grown-nil (ok l) a h = cc

pub contains-none : (l : List ℕ) → ((d : ℕ) → contains d l ≡ false) → l ≡ []
unfolding contains
contains-none [] h = refl
contains-none (d ∷ l) h = absurd (ground (arith, h d, nat_beq_iff d d))

module _ (D : Double) where
  insert_page-cons :
      (c : D.Carrier) (d : ℕ) (ranked : List (D.Carrier × ℕ)) → insert_page D c d ranked ≢ []
  unfolding insert_page
  insert_page-cons c d [] h = cc
  insert_page-cons c d ((e, other) ∷ rest) h = ground arith

  rank_pages-cons :
      (base : List (Text × D.Carrier)) (vectors : List (ℕ × List (Text × D.Carrier)))
      (ranked : List (D.Carrier × ℕ))
      → ranked ≢ []
      → rank_pages D base vectors ranked ≢ ok []
  unfolding rank_pages
  rank_pages-cons base [] ranked n h = n (ground arith)
  rank_pages-cons base ((d, vector) ∷ rest) ranked n h =
      let (c, cos, run) = >>=-eq-ok (caculate_cos_similarity D base vector) _ h in
      rank_pages-cons base rest (insert_page D c d ranked) (insert_page-cons c d ranked) run

  page_vectors-nil :
      (pre : Preprocessor D.Carrier) (words : List (Text × ℕ)) (ds : List ℕ)
      → page_vectors D pre words ds ≡ ok []
      → ds ≡ []
  unfolding page_vectors
  page_vectors-nil pre words [] h = refl
  page_vectors-nil pre words (d ∷ ds) h = elim (Option-cases (find d pre.indexed_page_lib_list)) [
    | inl absent ↦ let e : fault Fault.undefined ≡ ok [] = rw (absent, page_vectors) at h in cc
    | inr (page, found) ↦
        absurd (grown-nil (page_vectors D pre words ds) _ (rw (found, page_vectors) at h))
  ]

  -- Vectors are ranked into an order of one page or more, which is printed.
  ranked-no_answer :
      (pre : Preprocessor D.Carrier) (base : List (Text × D.Carrier)) (d : ℕ)
      (vector : List (Text × D.Carrier)) (rest : List (ℕ × List (Text × D.Carrier)))
      → (get_pages_order D base ((d, vector) ∷ rest)
          >>= (λ order. create_json order pre.indexed_page_lib_list))
        ≢ ok no_answer
  unfolding get_pages_order rank_pages doc_ids
  ranked-no_answer pre base d vector rest h =
      let (order, run, made) = >>=-eq-ok (get_pages_order D base ((d, vector) ∷ rest)) _ h in
      let (ranked, run', same) = >>=-eq-ok (rank_pages D base ((d, vector) ∷ rest) []) _ run in
      let (c, cos, run'') = >>=-eq-ok (caculate_cos_similarity D base vector) _ run' in
      let filled = rank_pages-cons base rest _ (insert_page-cons c d []) in
      by_ranked ranked order (λ e. filled (run'' ∙ ap ok e)) same made
    where
      by_ranked :
          (ranked : List (D.Carrier × ℕ)) (order : List ℕ)
          → ranked ≢ []
          → ok (doc_ids D ranked) ≡ ok order
          → create_json order pre.indexed_page_lib_list ≢ ok no_answer
      by_ranked [] order n same made = n refl
      by_ranked ((e, other) ∷ more) order n same made =
          let shape : ok order ≡ ok (other ∷ doc_ids D more) = sym same in
          let order_shape : order ≡ other ∷ doc_ids D more = cc in
          create_json-cons other (doc_ids D more) pre.indexed_page_lib_list
            (ap (λ o. create_json o pre.indexed_page_lib_list) (sym order_shape) ∙ made)

  -- On any page index, the answer is that there is none just when no page is found.
  pub do_query-no_answer :
      (cut : Text → List (Text × ℕ)) (pre : Preprocessor D.Carrier) (sought : Text)
      → (do_query D cut pre sought ≡ ok no_answer)
        ↔ (get_relative_pages (cut sought) pre.invert_index_table ≡ [])
  unfolding do_query page_vectors
  do_query-no_answer cut pre sought = (
    λ h.
        let (vectors, run, made) =
          >>=-eq-ok
            (page_vectors D pre (cut sought)
              (get_relative_pages (cut sought) pre.invert_index_table))
            _ h in
        page_vectors-nil pre (cut sought) _ (by_vectors vectors run made),
    λ e. rw (e, do_query) refl,
  )
    where
      by_vectors :
          (vectors : List (ℕ × List (Text × D.Carrier)))
          → page_vectors D pre (cut sought) (get_relative_pages (cut sought) pre.invert_index_table)
            ≡ ok vectors
          → (elim vectors as (λ l. Outcome Text) [
            | [] ↦ ok no_answer
            | v ∷ vs ↦ do
              order ←
                  get_pages_order D
                    (caculate_value D
                      (cut sought)
                      pre.document_frequencies
                      (length pre.page_lib_list))
                    (v ∷ vs)
              create_json order pre.indexed_page_lib_list
          ])
            ≡ ok no_answer
          → page_vectors D pre (cut sought) (get_relative_pages (cut sought) pre.invert_index_table)
            ≡ ok []
      by_vectors [] run made = run
      by_vectors ((d, vector) ∷ rest) run made = absurd (ranked-no_answer pre _ d vector rest made)

  -- For an empty preprocessor and a page library with an item for every page, each with a
  -- description, Do succeeds, and DoQuery for a text that the segmenter cuts into one word or more
  -- then answers that there is no answer exactly when no page that Do kept has every word.
  pub do_all-no_answer :
      (extract : Text → List (Text × D.Carrier)) (make : Text → ℕ) (is_equal : ℕ → ℕ → Bool)
      (cut : Text → List (Text × ℕ) → List (Text × ℕ)) (unset : ℕ) (ripe : List Text)
      (items : List RssItem) (segment : Text → List (Text × ℕ)) (sought word : Text) (n : ℕ)
      (rest : List (Text × ℕ))
      → AreDescribed ripe items
      → segment sought ≡ (word, n) ∷ rest
      → (pre : Preprocessor D.Carrier) × (do_all D extract make is_equal cut unset ripe items
            (fresh D.Carrier)
          ≡ ok pre)
        × ((do_query D segment pre sought ≡ ok no_answer)
            ↔ ((d : ℕ) → some_covers d ((word, n) ∷ rest) pre.page_lib_list ≡ false))
  unfolding contains
  do_all-no_answer extract make is_equal cut unset ripe items segment sought word n rest le e =
      let (pre, run, found) =
        do_all-get_relative_pages D extract make is_equal cut unset ripe items le in
      let asked = do_query-no_answer segment pre sought in
      let same = ap (λ ws. get_relative_pages ws pre.invert_index_table) e in
      (
        pre,
        run,
        (
          λ h d. sym (found d word n rest) ∙ ap (contains d) (sym same ∙ asked.0 h),
          λ h. asked.1 (same ∙ contains-none _ (λ d. found d word n rest ∙ h d)),
        ),
      )
