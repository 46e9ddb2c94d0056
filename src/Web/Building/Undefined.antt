-- ===== src/Web/Building/Undefined.antt =====
-- `PageLibPreprocessor::Do` of src/web/page_lib_preprocessor.cc on items without a description:
-- `SimHash` leaves the similarity hash of their pages unset, and a later step reads it.
use serach_engine.Base.{
  ℕ, suc, ◌≤◌, ◌≡◌, refl, ap, ◌∙◌, Text, Bool, Fault, ok, fault, ◌>>=◌, List, [], ◌∷◌, none, some,
  length, arith, ◌⊎◌, inl, inr, Option-cases,
}
use serach_engine.Web.Building.Numbers.{create_pages-IsNumbered}
use serach_engine.Web.Building.Sound.{fresh}
use serach_engine.Web.Building.{do_all}
use serach_engine.Web.Double.{Double}
use serach_engine.Web.InvertIndex.{build_invert_index_table}
use serach_engine.Web.Preprocessor.{
  sim_hash, create_pages, create_page_lib_list, keep_unequal, rm_from, rm_redundant_pages,
  cut_pages, cut_all, index_pages, load_index_page_list,
}
use serach_engine.Web.WebPage.{RssItem, WebPage}
use serach_engine.Web.WebPage

-- An item that a page is made of has no description.
abbrev pub HasBlank : List Text → List RssItem → Type 0
HasBlank [] items = ⊥
HasBlank (page ∷ ripe) [] = ⊥
HasBlank (page ∷ ripe) (item ∷ items) = (item.description ≡ []) ⊎ HasBlank ripe items

module _ {W : Type 0} where
  -- A page of the list has no similarity hash.
  abbrev HasUnset : List (WebPage W) → Type 0
  HasUnset [] = ⊥
  HasUnset (page ∷ rest) = (page.simhash_value ≡ none) ⊎ HasUnset rest

  simhash_value-add_keywords :
      (ws : List (Text × W)) (page : WebPage W)
      → (WebPage.add_keywords ws page).simhash_value ≡ page.simhash_value
  unfolding WebPage.add_keywords
  simhash_value-add_keywords [] page = refl
  simhash_value-add_keywords ((word, v) ∷ ws) page = simhash_value-add_keywords ws _

  sim_hash-unset :
      (extract : Text → List (Text × W)) (make : Text → ℕ) (page : WebPage W)
      → page.rss_item.description ≡ []
      → sim_hash extract make page ≡ page
  unfolding sim_hash
  sim_hash-unset extract make page e = rw (e) refl

  create_pages-HasUnset :
      (extract : Text → List (Text × W)) (make : Text → ℕ) (unset i : ℕ) (ripe : List Text)
      (items : List RssItem)
      → length ripe ≤ length items
      → HasBlank ripe items
      → (pages : List (WebPage W)) × (create_pages extract make unset i ripe items ≡ ok pages)
        × HasUnset pages
  unfolding create_pages WebPage.process_doc WebPage.init
  create_pages-HasUnset extract make unset i [] items le h = absurd h
  create_pages-HasUnset extract make unset i (page ∷ ripe) [] le h = absurd h
  create_pages-HasUnset extract make unset i (page ∷ ripe) (item ∷ items) le (inl e) =
      let (rest, run, numbered, above) =
        create_pages-IsNumbered extract make unset (suc i) ripe items (omega (arith, le)) in
      let first : WebPage W = record (WebPage.init unset page item) { doc_id = suc i } in
      (
        WebPage.process_doc (sim_hash extract make first) ∷ rest,
        rw (create_pages, run) refl,
        inl (
            simhash_value-add_keywords (sim_hash extract make first).keyword_list
              (sim_hash extract make first)
            ∙ ap (λ (p : WebPage W). p.simhash_value) (sim_hash-unset extract make first e)),
      )
  create_pages-HasUnset extract make unset i (page ∷ ripe) (item ∷ items) le (inr h) =
      let (rest, run, unset_there) =
        create_pages-HasUnset extract make unset (suc i) ripe items (omega (arith, le)) h in
      let first : WebPage W = record (WebPage.init unset page item) { doc_id = suc i } in
      (
        WebPage.process_doc (sim_hash extract make first) ∷ rest,
        rw (create_pages, run) refl,
        inr unset_there,
      )

  get_sim_hash_value-some :
      (page : WebPage W) (hash : ℕ)
      → page.simhash_value ≡ some hash
      → WebPage.get_sim_hash_value page ≡ ok hash
  unfolding WebPage.get_sim_hash_value
  get_sim_hash_value-some page hash e = rw (e) refl

  get_sim_hash_value-none :
      (page : WebPage W)
      → page.simhash_value ≡ none
      → WebPage.get_sim_hash_value page ≡ fault Fault.undefined
  unfolding WebPage.get_sim_hash_value
  get_sim_hash_value-none page e = rw (e) refl

  -- A page behind `it` has no hash.
  keep_unequal-later :
      (is_equal : ℕ → ℕ → Bool) (it : WebPage W) (hash : ℕ) (pages : List (WebPage W))
      → it.simhash_value ≡ some hash
      → HasUnset pages
      → keep_unequal is_equal it pages ≡ fault Fault.undefined
  unfolding keep_unequal
  keep_unequal-later is_equal it hash [] e h = absurd h
  keep_unequal-later is_equal it hash (pos ∷ rest) e (inl e') =
      rw (keep_unequal, get_sim_hash_value-some it hash e, get_sim_hash_value-none pos e') refl
  keep_unequal-later is_equal it hash (pos ∷ rest) e (inr h) =
      elim (Option-cases pos.simhash_value) [
        | inl e' ↦
            rw (keep_unequal, get_sim_hash_value-some it hash e, get_sim_hash_value-none pos e')
              refl
        | inr (hash', e') ↦
            rw
              (
                keep_unequal,
                get_sim_hash_value-some it hash e,
                get_sim_hash_value-some pos hash' e',
                keep_unequal-later is_equal it hash rest e h,
              )
              refl
      ]

  -- Of two pages or more, one has no hash.
  keep_unequal-undefined :
      (is_equal : ℕ → ℕ → Bool) (it pos : WebPage W) (rest : List (WebPage W))
      → HasUnset (it ∷ pos ∷ rest)
      → keep_unequal is_equal it (pos ∷ rest) ≡ fault Fault.undefined
  unfolding keep_unequal
  keep_unequal-undefined is_equal it pos rest (inl e) =
      rw (keep_unequal, get_sim_hash_value-none it e) refl
  keep_unequal-undefined is_equal it pos rest (inr h) = elim (Option-cases it.simhash_value) [
    | inl e ↦ rw (keep_unequal, get_sim_hash_value-none it e) refl
    | inr (hash, e) ↦ keep_unequal-later is_equal it hash (pos ∷ rest) e h
  ]

  copied-none :
      (page : WebPage W) → page.simhash_value ≡ none → WebPage.copied page ≡ fault Fault.undefined
  unfolding WebPage.copied
  copied-none page e = rw (e) refl

  index_pages-undefined :
      (page : WebPage W) (rest : List (WebPage W)) (m : List (ℕ × WebPage W))
      → page.simhash_value ≡ none
      → index_pages (page ∷ rest) m ≡ fault Fault.undefined
  unfolding index_pages
  index_pages-undefined page rest m e = rw (index_pages, copied-none page e) refl

module _ (D : Double) (extract : Text → List (Text × D.Carrier)) (make : Text → ℕ)
    (is_equal : ℕ → ℕ → Bool) (cut : Text → List (Text × ℕ) → List (Text × ℕ)) where
  by_pages :
      (made : List (WebPage D.Carrier))
      → HasUnset made
      → (do
        kept ← rm_redundant_pages is_equal (record (fresh D.Carrier) { page_lib_list = made })
        load_index_page_list (build_invert_index_table D (cut_all cut kept)))
        ≡ fault Fault.undefined
  unfolding rm_redundant_pages rm_from cut_all cut_pages load_index_page_list
      build_invert_index_table
  by_pages [] h = absurd h
  by_pages (it ∷ []) (inr h) = absurd h
  by_pages (it ∷ []) (inl e) =
      let cut_one : WebPage D.Carrier = record it {
        term_frequencies = cut it.rss_item.description it.term_frequencies;
      } in
      rw (index_pages-undefined cut_one [] [] e) refl
  by_pages (it ∷ pos ∷ rest) h = rw (keep_unequal-undefined is_equal it pos rest h) refl

  -- For an empty preprocessor and a page library with an item for every page, one of which has no
  -- description, Do is undefined, whatever the segmenter, the extractor and the similarity test
  -- are: RmRedundantPages compares a similarity hash that was never set or, when there is only one
  -- page, LoadIndexPageList copies it.
  pub do_all-undefined :
      (unset : ℕ) (ripe : List Text) (items : List RssItem)
      → length ripe ≤ length items
      → HasBlank ripe items
      → do_all D extract make is_equal cut unset ripe items (fresh D.Carrier)
        ≡ fault Fault.undefined
  unfolding do_all create_page_lib_list
  do_all-undefined unset ripe items le h =
      let (made, run, unset_there) = create_pages-HasUnset extract make unset 0 ripe items le h in
      rw (do_all, create_page_lib_list, run) (by_pages made unset_there)
