-- ===== src/Web/Building/Answers.antt =====
-- What `GetRelativePages` of src/web/web_page_query.cc finds in the index that
-- `PageLibPreprocessor::Do` of src/web/page_lib_preprocessor.cc builds.
use serach_engine.Web.Building.Numbers.{AreDescribed}
use serach_engine.Base.{
  ℕ, ◌≡◌, refl, sym, ap, ◌∙◌, Text, Bool, true, false, ◌||◌, ◌&&◌, ok, List, [], ◌∷◌, length, arith,
  text_eq, nat_eq, nat_beq, nat_beq_iff, Bool-cases, Option-cases, inl, inr,
}
use serach_engine.Base.Maps.{find}
use serach_engine.Base.Sets.{contains}
use serach_engine.Web.Building.Numbers.{has_id, IsNumbered, some_page-false}
use serach_engine.Web.Building.Sets.{index_terms-IsTable}
use serach_engine.Web.Building.Sound.{fresh, cut_up, do_all-IsNumbered}
use serach_engine.Web.Building.{do_all}
use serach_engine.Web.Double.{Double}
use serach_engine.Web.InvertIndex.Listing.{some_page, has_word, build_invert_index_table-some_page}
use serach_engine.Web.InvertIndex.{docs_of, build_invert_index_table}
use serach_engine.Web.Preprocessor.Hashed.{with_index}
use serach_engine.Web.Preprocessor.{Preprocessor}
use serach_engine.Web.Query.Pages.{has, listed, get_relative_pages-listed}
use serach_engine.Web.Query.{get_relative_pages}
use serach_engine.Web.WebPage.{RssItem, WebPage}

-- A text with these terms has every one of these words.
unfoldable pub covers : List (Text × ℕ) → List (Text × ℕ) → Bool
covers [] terms = true
covers ((w, n) ∷ words) terms = has_word w terms && covers words terms

-- A page of the list has the number and every one of these words.
unfoldable pub some_covers : {W : Type 0} → ℕ → List (Text × ℕ) → List (WebPage W) → Bool
some_covers d words [] = false
some_covers d words (page ∷ rest) =
    (nat_beq page.doc_id d && covers words page.term_frequencies) || some_covers d words rest

module _ {W : Type 0} where
  some_covers-false :
      (d : ℕ) (words : List (Text × ℕ)) (pages : List (WebPage W))
      → has_id d pages ≡ false
      → some_covers d words pages ≡ false
  unfolding has_id some_covers
  some_covers-false d words [] h = refl
  some_covers-false d words (page ∷ rest) h = ground (arith, h, some_covers-false d words rest)

  some_covers-one :
      (d : ℕ) (w : Text) (n : ℕ) (pages : List (WebPage W))
      → some_covers d ((w, n) ∷ []) pages ≡ some_page d w pages
  unfolding some_covers some_page covers
  some_covers-one d w n [] = refl
  some_covers-one d w n (page ∷ rest) = ground (arith, some_covers-one d w n rest)

  -- Of numbered pages one alone has a number, so the words are all on one page.
  some_covers-cons :
      (d : ℕ) (w : Text) (n : ℕ) (words : List (Text × ℕ)) (pages : List (WebPage W))
      → IsNumbered pages
      → some_covers d ((w, n) ∷ words) pages ≡ (some_page d w pages && some_covers d words pages)
  unfolding some_covers some_page covers
  some_covers-cons d w n words [] v = refl
  some_covers-cons d w n words (page ∷ rest) v = elim (Bool-cases (nat_beq page.doc_id d)) [
    | inl here ↦
        let same_number : page.doc_id ≡ d = (nat_beq_iff page.doc_id d).0 here in
        let only : has_id d rest ≡ false = ap (λ k. has_id k rest) (sym same_number) ∙ v.0 in
        ground (
          arith,
          here,
          some_page-false d w rest only,
          some_covers-false d words rest only,
          some_covers-false d ((w, n) ∷ words) rest only,
        )
    | inr other ↦ ground (arith, other, some_covers-cons d w n words rest v.1)
  ]

pub listed-has_docs {ℓ} :
    {V : Type ℓ} (d : ℕ) (w : Text) (n : ℕ) (words : List (Text × ℕ))
    (table : List (Text × List (ℕ × V)))
    → listed d ((w, n) ∷ words) table ≡ (has d (docs_of w table) && listed d words table)
unfolding listed docs_of has find
listed-has_docs d w n words table = elim (Option-cases (find w table)) [
  | inl absent ↦ rw (absent, listed, docs_of) refl
  | inr (docs, found) ↦ rw (found, listed, docs_of) refl
]

module _ (D : Double) where
  -- The table of numbered pages lists a number under every word of a query when one page has them.
  listed-some_covers :
      (d : ℕ) (w : Text) (n : ℕ) (words : List (Text × ℕ)) (pages : List (WebPage D.Carrier))
      (table : List (Text × List (ℕ × D.Carrier)))
      → IsNumbered pages
      → ((x : Text) → has d (docs_of x table) ≡ some_page d x pages)
      → listed d ((w, n) ∷ words) table ≡ some_covers d ((w, n) ∷ words) pages
  unfolding listed
  listed-some_covers d w n [] pages table v same =
      ground (arith, listed-has_docs d w n [] table, same w, some_covers-one d w n pages)
  listed-some_covers d w n ((w', n') ∷ words) pages table v same =
      listed-has_docs d w n ((w', n') ∷ words) table
      ∙ rw (same w, listed-some_covers d w' n' words pages table v same) refl
      ∙ sym (some_covers-cons d w n ((w', n') ∷ words) pages v)

  table-some_page :
      (d : ℕ) (w : Text) (pages : List (WebPage D.Carrier)) (df : List (Text × ℕ))
      → has d (docs_of w (build_invert_index_table D (cut_up D pages df)).invert_index_table)
        ≡ some_page d w pages
  unfolding has docs_of find
  table-some_page d w pages df =
      build_invert_index_table-some_page D d w (cut_up D pages df) ∙ ground arith

  -- On the index of numbered pages, the pages found are those that have every word.
  pub index-get_relative_pages :
      (pages : List (WebPage D.Carrier)) (df : List (Text × ℕ)) (d : ℕ) (word : Text) (n : ℕ)
      (rest : List (Text × ℕ))
      → IsNumbered pages
      → contains d (
          get_relative_pages
            ((word, n) ∷ rest)
            (with_index (build_invert_index_table D (cut_up D pages df))).invert_index_table)
        ≡ some_covers d ((word, n) ∷ rest) pages
  unfolding with_index build_invert_index_table docs_of has find
  index-get_relative_pages pages df d word n rest numbered =
      let pre = with_index (build_invert_index_table D (cut_up D pages df)) in
      get_relative_pages-listed d word n rest pre.invert_index_table
        (index_terms-IsTable D pages (length pages) df [] numbered (λ e w m. cc) tt)
      ∙ listed-some_covers d word n rest pages pre.invert_index_table numbered
          (λ w. table-some_page d w pages df)

  -- For an empty preprocessor and a page library with an item for every page, each with a
  -- description, Do succeeds, and on
  -- the table that it builds GetRelativePages finds, for one word or more, exactly the numbers of
  -- the pages that Do kept and that have every word.
  pub do_all-get_relative_pages :
      (extract : Text → List (Text × D.Carrier)) (make : Text → ℕ) (is_equal : ℕ → ℕ → Bool)
      (cut : Text → List (Text × ℕ) → List (Text × ℕ)) (unset : ℕ) (ripe : List Text)
      (items : List RssItem)
      → AreDescribed ripe items
      → (pre : Preprocessor D.Carrier) × (do_all D extract make is_equal cut unset ripe items
            (fresh D.Carrier)
          ≡ ok pre)
        × ((d : ℕ) (word : Text) (n : ℕ) (rest : List (Text × ℕ))
            → contains d (get_relative_pages ((word, n) ∷ rest) pre.invert_index_table)
              ≡ some_covers d ((word, n) ∷ rest) pre.page_lib_list)
  unfolding with_index build_invert_index_table
  do_all-get_relative_pages extract make is_equal cut unset ripe items le =
      let (pages, df, run, numbered) =
        do_all-IsNumbered D extract make is_equal cut unset ripe items le in
      (
        with_index (build_invert_index_table D (cut_up D pages df)),
        run,
        λ d word n rest. index-get_relative_pages pages df d word n rest numbered,
      )
