-- ===== src/Web/Building/Ranked.antt =====
-- The answer of `DoQuery` of src/web/web_page_query.cc to a query that finds pages, on the index that
-- `PageLibPreprocessor::Do` of src/web/page_lib_preprocessor.cc builds.
use serach_engine.Web.Building.Numbers.{AreDescribed}
use serach_engine.Base.{
  All, ℕ, ◌≡◌, refl, ap, ◌∙◌, Text, Bool, true, false, Outcome, ok, ◌>>=◌, List, [], ◌∷◌, arith,
  nat_eq, nat_beq_iff, ◌⊎◌, inl, inr, fun_ext,
}
use serach_engine.Base.Sets.{contains}
use serach_engine.Web.Building.Answers.{some_covers, index-get_relative_pages}
use mathlib.Core.Path.{subst}
use serach_engine.Web.Building.NoAnswer.{do_query-no_answer}
use serach_engine.Web.Building.Sound.{fresh, cut_up, do_all-IsNumbered, with_index-IsIndex}
use serach_engine.Web.Building.{do_all}
use serach_engine.Web.Double.{Double}
use serach_engine.Web.InvertIndex.{build_invert_index_table}
use serach_engine.Web.Preprocessor.Hashed.{with_index}
use serach_engine.Web.Preprocessor.{Preprocessor}
use serach_engine.Web.Query.Answers.{
  base_vector, IsScored, AreVectors, page_vectors-AreVectors, AllPlaced-contains, IsFrom-contains,
}
use serach_engine.Web.Query.Ranking.{
  AllCovered, IsPlaced, IsFrom, IsDescending, get_pages_order-IsDescending,
}
use serach_engine.Web.Query.Total.{
  IsIndex, AreKnown, get_relative_pages-IsHit, page_vectors-IsHit, create_json-ok,
}
use serach_engine.Web.Query.{
  do_query, get_relative_pages, get_pages_order, doc_ids, create_json, no_answer,
}
use serach_engine.Web.WebPage.{RssItem}

module _ (D : Double) where
  -- An answer prints an order of the pages that were found, by descending cosine, in which each of
  -- them stands with its cosine unless another page with that cosine does.
  pub record IsRanked (pre : Preprocessor D.Carrier) (words : List (Text × ℕ)) (is_hit : ℕ → Bool)
      (answer : Text) : Type 0 where
    pub order : List (D.Carrier × ℕ)
    pub printed : create_json (doc_ids D order) pre.indexed_page_lib_list ≡ ok answer
    pub descends : IsDescending D order
    pub complete :
        (d : ℕ)
        → is_hit d ≡ true
        → (c : D.Carrier) × IsScored D pre words d c × IsPlaced D c d order
    pub sound : All (λ e. (is_hit e.1 ≡ true) × IsScored D pre words e.1 e.0) order

  All-mono :
      (P Q : D.Carrier × ℕ → Type 0) (l : List (D.Carrier × ℕ))
      → ((e : D.Carrier × ℕ) → P e → Q e)
      → All P l
      → All Q l
  All-mono P Q [] f h = tt
  All-mono P Q (e ∷ l) f h = (f e h.0, All-mono P Q l f h.1)

  module _ (pre : Preprocessor D.Carrier) (segment : Text → List (Text × ℕ)) (sought : Text) where
    ranked :
        (ds : List ℕ) (v : ℕ × List (Text × D.Carrier)) (vs : List (ℕ × List (Text × D.Carrier)))
        → AreVectors D pre (segment sought) ds (v ∷ vs)
        → AllCovered D (base_vector D pre (segment sought)) (v ∷ vs)
        → AreKnown D pre (v ∷ vs)
        → (answer : Text) × ((do
          order ← get_pages_order D (base_vector D pre (segment sought)) (v ∷ vs)
          create_json order pre.indexed_page_lib_list)
            ≡ ok answer)
          × IsRanked pre (segment sought) (λ d. contains d ds) answer
    ranked ds v vs are covered known =
        let base = base_vector D pre (segment sought) in
        let (order, (run, (desc, (all, from)))) =
          get_pages_order-IsDescending D base (v ∷ vs) covered in
        let (text, made) = create_json-ok D pre base (v ∷ vs) order known from in
        (
          text,
          rw (run) made,
          record {
            order = order;
            printed = made;
            descends = desc;
            complete =
                λ d h. AllPlaced-contains D pre (segment sought) d ds (v ∷ vs) order are all h;
            sound =
                All-mono (IsFrom D base (v ∷ vs)) _ order
                  (λ e f. IsFrom-contains D pre (segment sought) e.0 e.1 ds (v ∷ vs) are f) from;
          },
        )

    -- On a sound index, when a page is found.
    do_query-IsRanked :
        (d : ℕ)
        → IsIndex D pre
        → contains d (get_relative_pages (segment sought) pre.invert_index_table) ≡ true
        → (answer : Text) × (do_query D segment pre sought ≡ ok answer)
          × IsRanked pre
              (segment sought)
              (λ e. contains e (get_relative_pages (segment sought) pre.invert_index_table))
              answer
    unfolding do_query contains
    do_query-IsRanked d i h =
        let ds = get_relative_pages (segment sought) pre.invert_index_table in
        let (vectors, run, covered, known) =
          page_vectors-IsHit D pre (segment sought) ds
            (get_relative_pages-IsHit D pre (segment sought) i) in
        let (answer, made, is_ranked) =
          by_vectors ds vectors h (page_vectors-AreVectors D pre (segment sought) ds vectors run)
            covered known in
        (answer, rw (do_query, run) made, is_ranked)
      where
        by_vectors :
            (ds : List ℕ) (vectors : List (ℕ × List (Text × D.Carrier)))
            → contains d ds ≡ true
            → AreVectors D pre (segment sought) ds vectors
            → AllCovered D (base_vector D pre (segment sought)) vectors
            → AreKnown D pre vectors
            → (answer : Text) × ((elim vectors as (λ l. Outcome Text) [
              | [] ↦ ok no_answer
              | v ∷ vs ↦ do
                order ← get_pages_order D (base_vector D pre (segment sought)) (v ∷ vs)
                create_json order pre.indexed_page_lib_list
            ])
                ≡ ok answer)
              × IsRanked pre (segment sought) (λ e. contains e ds) answer
        by_vectors [] vectors h are covered known = cc
        by_vectors (e ∷ ds) [] h are covered known = absurd are
        by_vectors (e ∷ ds) (v ∷ vs) h are covered known = ranked (e ∷ ds) v vs are covered known

  -- Either no page has every word and there is no answer, or the pages that have are ranked.
  abbrev pub IsAnswered :
      Preprocessor D.Carrier → (Text → List (Text × ℕ)) → Text → (ℕ → Bool) → Type 0
  IsAnswered pre segment sought is_hit =
      ((do_query D segment pre sought ≡ ok no_answer) × ((d : ℕ) → is_hit d ≡ false))
      ⊎ ((answer : Text) × (do_query D segment pre sought ≡ ok answer)
          × IsRanked pre (segment sought) is_hit answer)

  do_query-IsAnswered :
      (pre : Preprocessor D.Carrier) (segment : Text → List (Text × ℕ)) (sought : Text)
      → IsIndex D pre
      → IsAnswered pre segment sought
          (λ d. contains d (get_relative_pages (segment sought) pre.invert_index_table))
  unfolding contains
  do_query-IsAnswered pre segment sought i =
      by_pages (get_relative_pages (segment sought) pre.invert_index_table) refl
    where
      by_pages :
          (ds : List ℕ)
          → get_relative_pages (segment sought) pre.invert_index_table ≡ ds
          → IsAnswered pre segment sought
              (λ d. contains d (get_relative_pages (segment sought) pre.invert_index_table))
      by_pages [] e = inl ((do_query-no_answer D segment pre sought).1 e, λ d. ap (contains d) e)
      by_pages (d ∷ ds) e = inr (
          do_query-IsRanked pre segment sought d i
            (ap (contains d) e ∙ ground (arith, nat_beq_iff d d)))

  -- For an empty preprocessor and a page library with an item for every page, each with a
  -- description, Do succeeds, and DoQuery for a text that the segmenter cuts into one word or more
  -- then either answers that there is no answer, and no page that Do kept has every word, or
  -- prints an order of pages in which the cosines descend, which has only pages that have every
  -- word, each with its cosine, and in which each such page stands with its cosine unless another
  -- page with that cosine does.
  pub do_all-IsAnswered :
      (extract : Text → List (Text × D.Carrier)) (make : Text → ℕ) (is_equal : ℕ → ℕ → Bool)
      (cut : Text → List (Text × ℕ) → List (Text × ℕ)) (unset : ℕ) (ripe : List Text)
      (items : List RssItem) (segment : Text → List (Text × ℕ)) (sought word : Text) (n : ℕ)
      (rest : List (Text × ℕ))
      → AreDescribed ripe items
      → segment sought ≡ (word, n) ∷ rest
      → (pre : Preprocessor D.Carrier) × (do_all D extract make is_equal cut unset ripe items
            (fresh D.Carrier)
          ≡ ok pre)
        × IsAnswered pre segment sought (λ d. some_covers d ((word, n) ∷ rest) pre.page_lib_list)
  unfolding with_index build_invert_index_table
  do_all-IsAnswered extract make is_equal cut unset ripe items segment sought word n rest le e =
      let (pages, df, run, numbered) =
        do_all-IsNumbered D extract make is_equal cut unset ripe items le in
      let pre = with_index (build_invert_index_table D (cut_up D pages df)) in
      let found : (λ d. contains d (get_relative_pages (segment sought) pre.invert_index_table))
          ≡ (λ d. some_covers d ((word, n) ∷ rest) pages) =
        fun_ext (λ d.
          ap (λ ws. contains d (get_relative_pages ws pre.invert_index_table)) e
          ∙ index-get_relative_pages D pages df d word n rest numbered) in
      (
        pre,
        run,
        subst (IsAnswered pre segment sought) found
            (do_query-IsAnswered pre segment sought (with_index-IsIndex D pages df numbered)),
      )
