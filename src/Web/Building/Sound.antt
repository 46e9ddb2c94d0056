-- ===== src/Web/Building/Sound.antt =====
-- The index that `PageLibPreprocessor::Do` of src/web/page_lib_preprocessor.cc builds is one that
-- `WebPageQuery::DoQuery` of src/web/web_page_query.cc can search.
use serach_engine.Base.{
  All, ℕ, ◌≡◌, refl, sym, ◌∙◌, Text, Bool, true, false, ◌||◌, ok, List, [], none, length, arith,
  text_eq, nat_eq,
}
use serach_engine.Base.Maps.{find}
use serach_engine.Web.Building.Numbers.{
  has_id, IsNumbered, AreDescribed, AreDescribed-length, create_pages-IsNumbered,
  create_pages-HasHash, thinned-IsNumbered, cut_pages-IsNumbered, some_page-indexed,
}
use serach_engine.Web.Building.Sets.{index_terms-IsTable}
use serach_engine.Web.Building.{do_all}
use serach_engine.Web.Double.{Double}
use serach_engine.Web.InvertIndex.Listing.{some_page, build_invert_index_table-some_page}
use serach_engine.Web.InvertIndex.{docs_of, build_invert_index_table}
use serach_engine.Web.Preprocessor.{
  Preprocessor, create_pages, create_page_lib_list, cut_all, cut_pages,
}
use serach_engine.Web.Preprocessor.Hashed.{
  HasHash, thinned, with_index, thinned-All, rm_redundant_pages-ok, cut_pages-HasHash,
  load_index_page_list-ok,
}
use serach_engine.Web.Query.Pages.{has}
use serach_engine.Web.Query.Total.{IsIndex, do_query-ok}
use serach_engine.Web.Query.{do_query}
use serach_engine.Web.WebPage.{RssItem, WebPage}

-- The preprocessor before `Do`.
abbrev pub fresh : (W : Type 0) → Preprocessor W
fresh W = record {
  page_lib_list = [];
  indexed_page_lib_list = [];
  offset_lib = [];
  document_frequencies = [];
  invert_index_table = [];
}

module _ (D : Double) where
  abbrev pub cut_up : List (WebPage D.Carrier) → List (Text × ℕ) → Preprocessor D.Carrier
  cut_up pages df = record (fresh D.Carrier) { page_lib_list = pages; document_frequencies = df }

  -- From numbered pages, and with no index yet, the last two steps build an index.
  pub with_index-IsIndex :
      (pages : List (WebPage D.Carrier)) (df : List (Text × ℕ))
      → IsNumbered pages
      → IsIndex D (with_index (build_invert_index_table D (cut_up pages df)))
  unfolding with_index build_invert_index_table find has docs_of
  with_index-IsIndex pages df v = record {
    table = index_terms-IsTable D pages (length pages) df [] v (λ d w m. nothing_listed d w m) tt;
    known = λ d w h.
        some_page-indexed d w pages [] v (not_found d)
          (sym (build_invert_index_table-some_page D d w (cut_up pages df) ∙ nothing_more d w) ∙ h);
  }
    where
      not_found : (d : ℕ) → find {V = WebPage D.Carrier} d [] ≡ none
      not_found d = refl

      nothing_listed :
          (d : ℕ) (w : Text) → has {V = D.Carrier} d (docs_of w []) ≡ true → has_id d pages ≡ false
      nothing_listed d w m = cc

      nothing_more :
          (d : ℕ) (w : Text)
          → (some_page d w pages || has {V = D.Carrier} d (docs_of w [])) ≡ some_page d w pages
      nothing_more d w = ground arith

  module _ (extract : Text → List (Text × D.Carrier)) (make : Text → ℕ) (is_equal : ℕ → ℕ → Bool)
      (cut : Text → List (Text × ℕ) → List (Text × ℕ)) where
    -- The pages that are left of those that were made, with the words of their texts.
    abbrev pub kept_pages : List (WebPage D.Carrier) → List (WebPage D.Carrier) × List (Text × ℕ)
    kept_pages made = cut_pages cut (thinned is_equal (length made) made) []

    -- What Do builds of the pages that were made.
    pub do_all-kept_pages :
        (unset : ℕ) (ripe : List Text) (items : List RssItem) (made : List (WebPage D.Carrier))
        → create_pages extract make unset 0 ripe items ≡ ok made
        → All HasHash made
        → do_all D extract make is_equal cut unset ripe items (fresh D.Carrier)
          ≡ ok (
              with_index
                (build_invert_index_table D (cut_up (kept_pages made).0 (kept_pages made).1)))
    unfolding do_all create_page_lib_list cut_all build_invert_index_table with_index
    do_all-kept_pages unset ripe items made run h =
        let created : Preprocessor D.Carrier = record (fresh D.Carrier) { page_lib_list = made } in
        let (pages, df) = kept_pages made in
        let hashed : All HasHash pages =
          cut_pages-HasHash cut (thinned is_equal (length made) made) []
            (thinned-All HasHash is_equal (length made) made h) in
        rw (do_all, create_page_lib_list, run, rm_redundant_pages-ok is_equal created h)
          (load_index_page_list-ok (build_invert_index_table D (cut_up pages df)) hashed)

    pub kept_pages-IsNumbered :
        (made : List (WebPage D.Carrier)) → IsNumbered made → IsNumbered (kept_pages made).0
    kept_pages-IsNumbered made numbered =
        cut_pages-IsNumbered cut (thinned is_equal (length made) made) []
          (thinned-IsNumbered is_equal (length made) made numbered)

    -- Do succeeds, and what it builds is the index of its numbered pages.
    pub do_all-IsNumbered :
        (unset : ℕ) (ripe : List Text) (items : List RssItem)
        → AreDescribed ripe items
        → (pages : List (WebPage D.Carrier)) × (df : List (Text × ℕ)) × (do_all D extract make
              is_equal cut unset ripe items
              (fresh D.Carrier)
            ≡ ok (with_index (build_invert_index_table D (cut_up pages df))))
          × IsNumbered pages
    do_all-IsNumbered unset ripe items le =
        let (made, run, numbered, above) =
          create_pages-IsNumbered extract make unset 0 ripe items
            (AreDescribed-length ripe items le) in
        (
          (kept_pages made).0,
          (kept_pages made).1,
          do_all-kept_pages unset ripe items made run
              (create_pages-HasHash extract make unset 0 ripe items made le run),
          kept_pages-IsNumbered made numbered,
        )

    -- For an empty preprocessor and a page library with an item for every page, each with a
    -- description, Do succeeds, and no search on what it builds throws or is undefined: whatever
    -- the segmenter makes of the sought text, DoQuery returns an answer.
    pub do_all-do_query :
        (unset : ℕ) (ripe : List Text) (items : List RssItem)
        → AreDescribed ripe items
        → (pre : Preprocessor D.Carrier) × (do_all D extract make is_equal cut unset ripe items
              (fresh D.Carrier)
            ≡ ok pre)
          × ((segment : Text → List (Text × ℕ)) (sought : Text)
              → (answer : Text) × (do_query D segment pre sought ≡ ok answer))
    do_all-do_query unset ripe items le =
        let (pages, df, run, numbered) = do_all-IsNumbered unset ripe items le in
        (
          with_index (build_invert_index_table D (cut_up pages df)),
          run,
          λ segment sought.
              do_query-ok D (with_index (build_invert_index_table D (cut_up pages df))) segment
                sought (with_index-IsIndex pages df numbered),
        )
