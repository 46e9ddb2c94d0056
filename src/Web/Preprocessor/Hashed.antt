-- ===== src/Web/Preprocessor/Hashed.antt =====
-- The pages of src/web/page_lib_preprocessor.cc that have a similarity hash, and what the steps of
-- the preprocessor do to lists of such pages.
use serach_engine.Base.{
  All, ℕ, zero, suc, ◌≡◌, refl, Text, Bool, ok, List, [], ◌∷◌, none, some, length, if◌then◌else◌,
  Bool-cases, inl, inr, nat_eq,
}
use serach_engine.Base.Maps.{insert, unordered}
use serach_engine.Web.Preprocessor.{
  Preprocessor, keep_unequal, rm_from, rm_redundant_pages, cut_pages, index_pages,
  load_index_page_list,
}
use serach_engine.Web.WebPage.{WebPage}
use serach_engine.Web.WebPage

module _ {W : Type 0} where
  -- The number is set.
  abbrev pub HasHash : WebPage W → Type 0
  HasHash page = (hash : ℕ) × (page.simhash_value ≡ some hash)

  unfoldable pub hash_of : WebPage W → ℕ
  hash_of page = elim page.simhash_value [ none ↦ 0 | some hash ↦ hash ]

  pub get_sim_hash_value-ok :
      (page : WebPage W) → HasHash page → WebPage.get_sim_hash_value page ≡ ok (hash_of page)
  unfolding WebPage.get_sim_hash_value hash_of
  get_sim_hash_value-ok page (hash, e) = rw (e) refl

  copied-ok : (page : WebPage W) → HasHash page → WebPage.copied page ≡ ok page
  unfolding WebPage.copied
  copied-ok page (hash, e) = rw (e) refl

  -- The pages that are not equal to a page.
  unfoldable pub unequal_to : (ℕ → ℕ → Bool) → WebPage W → List (WebPage W) → List (WebPage W)
  unequal_to is_equal it [] = []
  unequal_to is_equal it (pos ∷ rest) =
      if is_equal (hash_of it) (hash_of pos)
      then unequal_to is_equal it rest
      else pos ∷ unequal_to is_equal it rest

  -- The pages without those that are equal to one before them.
  unfoldable pub thinned : (ℕ → ℕ → Bool) → ℕ → List (WebPage W) → List (WebPage W)
  unfolding unequal_to
  thinned is_equal zero pages = pages
  thinned is_equal (suc fuel) [] = []
  thinned is_equal (suc fuel) (it ∷ rest) = it ∷ thinned is_equal fuel (unequal_to is_equal it rest)

  unfoldable pub indexed : List (WebPage W) → List (ℕ × WebPage W) → List (ℕ × WebPage W)
  indexed [] m = m
  indexed (page ∷ rest) m = indexed rest (insert unordered page.doc_id page m)

  unfoldable pub with_index : Preprocessor W → Preprocessor W
  unfolding indexed
  with_index p = record p {
    indexed_page_lib_list = indexed p.page_lib_list p.indexed_page_lib_list;
  }

  keep_unequal-ok :
      (is_equal : ℕ → ℕ → Bool) (it : WebPage W) (pages : List (WebPage W))
      → HasHash it
      → All HasHash pages
      → keep_unequal is_equal it pages ≡ ok (unequal_to is_equal it pages)
  unfolding keep_unequal unequal_to
  keep_unequal-ok is_equal it [] h hs = refl
  keep_unequal-ok is_equal it (pos ∷ rest) h (k, hs) =
      rw
        (
          keep_unequal,
          get_sim_hash_value-ok it h,
          get_sim_hash_value-ok pos k,
          keep_unequal-ok is_equal it rest h hs,
        )
        refl

  pub unequal_to-All :
      (Q : WebPage W → Type 0) (is_equal : ℕ → ℕ → Bool) (it : WebPage W) (pages : List (WebPage W))
      → All Q pages
      → All Q (unequal_to is_equal it pages)
  unfolding unequal_to
  unequal_to-All Q is_equal it [] h = tt
  unequal_to-All Q is_equal it (pos ∷ rest) h =
      elim (Bool-cases (is_equal (hash_of it) (hash_of pos))) [
        | inl e ↦ rw (e, unequal_to) (unequal_to-All Q is_equal it rest h.1)
        | inr e ↦ rw (e, unequal_to) (h.0, unequal_to-All Q is_equal it rest h.1)
      ]

  pub thinned-All :
      (Q : WebPage W → Type 0) (is_equal : ℕ → ℕ → Bool) (fuel : ℕ) (pages : List (WebPage W))
      → All Q pages
      → All Q (thinned is_equal fuel pages)
  unfolding thinned
  thinned-All Q is_equal zero pages h = h
  thinned-All Q is_equal (suc fuel) [] h = tt
  thinned-All Q is_equal (suc fuel) (it ∷ rest) h = (
    h.0,
    thinned-All Q is_equal fuel (unequal_to is_equal it rest)
        (unequal_to-All Q is_equal it rest h.1),
  )

  rm_from-ok :
      (is_equal : ℕ → ℕ → Bool) (fuel : ℕ) (pages : List (WebPage W))
      → All HasHash pages
      → rm_from is_equal fuel pages ≡ ok (thinned is_equal fuel pages)
  unfolding rm_from thinned
  rm_from-ok is_equal zero pages h = refl
  rm_from-ok is_equal (suc fuel) [] h = refl
  rm_from-ok is_equal (suc fuel) (it ∷ rest) h =
      rw
        (
          rm_from,
          keep_unequal-ok is_equal it rest h.0 h.1,
          rm_from-ok is_equal fuel (unequal_to is_equal it rest)
              (unequal_to-All HasHash is_equal it rest h.1),
        )
        refl

  -- On pages with a hash RmRedundantPages thins the list.
  pub rm_redundant_pages-ok :
      (is_equal : ℕ → ℕ → Bool) (p : Preprocessor W)
      → All HasHash p.page_lib_list
      → rm_redundant_pages is_equal p
        ≡ ok
            (record p { page_lib_list = thinned is_equal (length p.page_lib_list) p.page_lib_list })
  unfolding rm_redundant_pages
  rm_redundant_pages-ok is_equal p h =
      rw (rm_from-ok is_equal (length p.page_lib_list) p.page_lib_list h) refl

  pub cut_pages-HasHash :
      (cut : Text → List (Text × ℕ) → List (Text × ℕ)) (pages : List (WebPage W))
      (df : List (Text × ℕ))
      → All HasHash pages
      → All HasHash (cut_pages cut pages df).0
  unfolding cut_pages
  cut_pages-HasHash cut [] df h = tt
  cut_pages-HasHash cut (page ∷ rest) df h = (h.0, cut_pages-HasHash cut rest _ h.1)

  index_pages-ok :
      (pages : List (WebPage W)) (m : List (ℕ × WebPage W))
      → All HasHash pages
      → index_pages pages m ≡ ok (indexed pages m)
  unfolding index_pages indexed
  index_pages-ok [] m h = refl
  index_pages-ok (page ∷ rest) m h =
      rw (index_pages, copied-ok page h.0)
        (index_pages-ok rest (insert unordered page.doc_id page m) h.1)

  pub load_index_page_list-ok :
      (p : Preprocessor W)
      → All HasHash p.page_lib_list
      → load_index_page_list p ≡ ok (with_index p)
  unfolding load_index_page_list with_index
  load_index_page_list-ok p h = rw (index_pages-ok p.page_lib_list p.indexed_page_lib_list h) refl
