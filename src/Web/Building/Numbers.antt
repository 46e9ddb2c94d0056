-- ===== src/Web/Building/Numbers.antt =====
-- The numbers of the pages that `PageLibPreprocessor::Do` of src/web/page_lib_preprocessor.cc makes.
use serach_engine.Base.{
  All, >>=-eq-ok, OnOk-ok, ◌≢◌, ℕ, zero, suc, ◌≤◌, ◌≡◌, refl, sym, ap, ◌∙◌, Text, Bool, true, false,
  ◌||◌, ok, List, [], ◌∷◌, none, some, length, if◌then◌else◌, ◌==◌, nat_eq, nat_beq, nat_beq_iff,
  arith, Bool-cases, inl, inr,
}
use serach_engine.Base.Maps.{find, insert, find-insert_or, or_else, unordered}
use serach_engine.Web.InvertIndex.Listing.{some_page, has_word}
use serach_engine.Web.Preprocessor.Hashed.{hash_of, unequal_to, thinned, indexed, HasHash}
use serach_engine.Web.Preprocessor.{sim_hash, create_pages, cut_pages}
use serach_engine.Web.WebPage.{RssItem, WebPage}
use serach_engine.Web.WebPage

-- Every page has an item, and that item a description.
abbrev pub AreDescribed : List Text → List RssItem → Type 0
AreDescribed [] items = Unit {0}
AreDescribed (page ∷ ripe) [] = ⊥
AreDescribed (page ∷ ripe) (item ∷ items) = (item.description ≢ []) × AreDescribed ripe items

pub AreDescribed-length :
    (ripe : List Text) (items : List RssItem) → AreDescribed ripe items → length ripe ≤ length items
AreDescribed-length [] items h = omega arith
AreDescribed-length (page ∷ ripe) [] h = absurd h
AreDescribed-length (page ∷ ripe) (item ∷ items) h =
    omega (arith, AreDescribed-length ripe items h.1)

module _ {W : Type 0} where
  -- A page of the list has the number.
  unfoldable pub has_id : ℕ → List (WebPage W) → Bool
  has_id d [] = false
  has_id d (page ∷ rest) = nat_beq page.doc_id d || has_id d rest

  -- No number stands twice.
  abbrev pub IsNumbered : List (WebPage W) → Type 0
  IsNumbered [] = Unit {0}
  IsNumbered (page ∷ rest) = (has_id page.doc_id rest ≡ false) × IsNumbered rest

  doc_id-add_keywords :
      (ws : List (Text × W)) (page : WebPage W)
      → (WebPage.add_keywords ws page).doc_id ≡ page.doc_id
  unfolding WebPage.add_keywords
  doc_id-add_keywords [] page = refl
  doc_id-add_keywords ((word, v) ∷ ws) page = doc_id-add_keywords ws _

  doc_id-sim_hash :
      (extract : Text → List (Text × W)) (make : Text → ℕ) (page : WebPage W)
      → (sim_hash extract make page).doc_id ≡ page.doc_id
  unfolding sim_hash
  doc_id-sim_hash extract make page = by_text page.rss_item.description
    where
      by_text :
          (s : Text)
          → (elim s as (λ l. WebPage W) [
            | [] ↦ page
            | c ∷ t ↦ record page {
              keyword_list = extract (c ∷ t);
              simhash_value = some (make (c ∷ t));
            }
          ]).doc_id
            ≡ page.doc_id
      by_text [] = refl
      by_text (c ∷ t) = refl

  -- The pages of `CreatePageLibList` have the numbers behind `i`.
  pub create_pages-IsNumbered :
      (extract : Text → List (Text × W)) (make : Text → ℕ) (unset i : ℕ) (ripe : List Text)
      (items : List RssItem)
      → length ripe ≤ length items
      → (pages : List (WebPage W)) × (create_pages extract make unset i ripe items ≡ ok pages)
        × IsNumbered pages
        × ((d : ℕ) → d ≤ i → has_id d pages ≡ false)
  unfolding create_pages has_id WebPage.process_doc
  create_pages-IsNumbered extract make unset i [] items le = ([], refl, tt, λ d h. refl)
  create_pages-IsNumbered extract make unset i (page ∷ ripe) [] le = absurd (omega (arith, le))
  create_pages-IsNumbered extract make unset i (page ∷ ripe) (item ∷ items) le =
      let (pages, run, numbered, above) =
        create_pages-IsNumbered extract make unset (suc i) ripe items (omega (arith, le)) in
      let made : WebPage W = record (WebPage.init unset page item) { doc_id = suc i } in
      let first : (WebPage.process_doc (sim_hash extract make made)).doc_id ≡ suc i =
        doc_id-add_keywords (sim_hash extract make made).keyword_list (sim_hash extract make made)
        ∙ doc_id-sim_hash extract make made in
      (
        WebPage.process_doc (sim_hash extract make made) ∷ pages,
        rw (create_pages, run) refl,
        (ap (λ k. has_id k pages) first ∙ above (suc i) (omega arith), numbered),
        λ d h. ground (
          arith,
          first,
          above d,
          nat_beq_iff (WebPage.process_doc (sim_hash extract make made)).doc_id d,
          h,
        ),
      )

  add_keywords-HasHash :
      (ws : List (Text × W)) (page : WebPage W)
      → HasHash page
      → HasHash (WebPage.add_keywords ws page)
  unfolding WebPage.add_keywords
  add_keywords-HasHash [] page h = h
  add_keywords-HasHash ((word, v) ∷ ws) page h = add_keywords-HasHash ws _ h

  sim_hash-HasHash :
      (extract : Text → List (Text × W)) (make : Text → ℕ) (page : WebPage W)
      → page.rss_item.description ≢ []
      → HasHash (sim_hash extract make page)
  unfolding sim_hash
  sim_hash-HasHash extract make page = by_text page.rss_item.description
    where
      by_text :
          (s : Text)
          → s ≢ []
          → HasHash (elim s as (λ l. WebPage W) [
            | [] ↦ page
            | c ∷ t ↦ record page {
              keyword_list = extract (c ∷ t);
              simhash_value = some (make (c ∷ t));
            }
          ])
      by_text [] h = absurd (h refl)
      by_text (c ∷ t) h = (make (c ∷ t), refl)

  -- Pages made of items with a description have a similarity hash.
  pub create_pages-HasHash :
      (extract : Text → List (Text × W)) (make : Text → ℕ) (unset i : ℕ) (ripe : List Text)
      (items : List RssItem) (pages : List (WebPage W))
      → AreDescribed ripe items
      → create_pages extract make unset i ripe items ≡ ok pages
      → All HasHash pages
  unfolding create_pages WebPage.process_doc WebPage.init
  create_pages-HasHash extract make unset i [] items pages h e = OnOk-ok (All HasHash) [] tt pages e
  create_pages-HasHash extract make unset i (page ∷ ripe) [] pages h e = absurd h
  create_pages-HasHash extract make unset i (page ∷ ripe) (item ∷ items) pages h e =
      let (rest, run, made) = >>=-eq-ok (create_pages extract make unset (suc i) ripe items) _ e in
      let first : WebPage W = record (WebPage.init unset page item) { doc_id = suc i } in
      OnOk-ok (All HasHash) (WebPage.process_doc (sim_hash extract make first) ∷ rest)
        (
          add_keywords-HasHash (sim_hash extract make first).keyword_list
              (sim_hash extract make first) (sim_hash-HasHash extract make first h.0),
          create_pages-HasHash extract make unset (suc i) ripe items rest h.1 run,
        )
        pages made

  has_id-unequal_to :
      (is_equal : ℕ → ℕ → Bool) (it : WebPage W) (d : ℕ) (pages : List (WebPage W))
      → has_id d pages ≡ false
      → has_id d (unequal_to is_equal it pages) ≡ false
  unfolding unequal_to has_id
  has_id-unequal_to is_equal it d [] h = refl
  has_id-unequal_to is_equal it d (pos ∷ rest) h =
      ground (arith, h, has_id-unequal_to is_equal it d rest)

  unequal_to-IsNumbered :
      (is_equal : ℕ → ℕ → Bool) (it : WebPage W) (pages : List (WebPage W))
      → IsNumbered pages
      → IsNumbered (unequal_to is_equal it pages)
  unfolding unequal_to
  unequal_to-IsNumbered is_equal it [] v = tt
  unequal_to-IsNumbered is_equal it (pos ∷ rest) v =
      elim (Bool-cases (is_equal (hash_of it) (hash_of pos))) [
        | inl same_hash ↦ rw (same_hash, unequal_to) (unequal_to-IsNumbered is_equal it rest v.1)
        | inr other ↦
            rw (other, unequal_to)
              (
                has_id-unequal_to is_equal it pos.doc_id rest v.0,
                unequal_to-IsNumbered is_equal it rest v.1,
              )
      ]

  has_id-thinned :
      (is_equal : ℕ → ℕ → Bool) (fuel d : ℕ) (pages : List (WebPage W))
      → has_id d pages ≡ false
      → has_id d (thinned is_equal fuel pages) ≡ false
  unfolding thinned has_id
  has_id-thinned is_equal zero d pages h = h
  has_id-thinned is_equal (suc fuel) d [] h = refl
  has_id-thinned is_equal (suc fuel) d (it ∷ rest) h = ground (
    arith,
    h,
    has_id-unequal_to is_equal it d rest,
    has_id-thinned is_equal fuel d (unequal_to is_equal it rest),
  )

  pub thinned-IsNumbered :
      (is_equal : ℕ → ℕ → Bool) (fuel : ℕ) (pages : List (WebPage W))
      → IsNumbered pages
      → IsNumbered (thinned is_equal fuel pages)
  unfolding thinned
  thinned-IsNumbered is_equal zero pages v = v
  thinned-IsNumbered is_equal (suc fuel) [] v = tt
  thinned-IsNumbered is_equal (suc fuel) (it ∷ rest) v = (
    has_id-thinned is_equal fuel it.doc_id (unequal_to is_equal it rest)
        (has_id-unequal_to is_equal it it.doc_id rest v.0),
    thinned-IsNumbered is_equal fuel (unequal_to is_equal it rest)
        (unequal_to-IsNumbered is_equal it rest v.1),
  )

  has_id-cut_pages :
      (cut : Text → List (Text × ℕ) → List (Text × ℕ)) (d : ℕ) (pages : List (WebPage W))
      (df : List (Text × ℕ))
      → has_id d (cut_pages cut pages df).0 ≡ has_id d pages
  unfolding cut_pages has_id
  has_id-cut_pages cut d [] df = refl
  has_id-cut_pages cut d (page ∷ rest) df =
      ap (λ b. nat_beq page.doc_id d || b) (has_id-cut_pages cut d rest _)

  pub cut_pages-IsNumbered :
      (cut : Text → List (Text × ℕ) → List (Text × ℕ)) (pages : List (WebPage W))
      (df : List (Text × ℕ))
      → IsNumbered pages
      → IsNumbered (cut_pages cut pages df).0
  unfolding cut_pages
  cut_pages-IsNumbered cut [] df v = tt
  cut_pages-IsNumbered cut (page ∷ rest) df v =
      (has_id-cut_pages cut page.doc_id rest _ ∙ v.0, cut_pages-IsNumbered cut rest _ v.1)

  pub some_page-false :
      (d : ℕ) (w : Text) (pages : List (WebPage W))
      → has_id d pages ≡ false
      → some_page d w pages ≡ false
  unfolding has_id some_page
  some_page-false d w [] h = refl
  some_page-false d w (page ∷ rest) h = ground (arith, h, some_page-false d w rest)

  find-indexed :
      (d : ℕ) (pages : List (WebPage W)) (m : List (ℕ × WebPage W)) (page : WebPage W)
      → find d m ≡ some page
      → find d (indexed pages m) ≡ some page
  unfolding indexed or_else
  find-indexed d [] m page h = h
  find-indexed d (it ∷ rest) m page h =
      find-indexed d rest (insert unordered it.doc_id it m) page
        (find-insert_or unordered it.doc_id d it m ∙ kept)
    where
      kept : or_else (find d m) (if it.doc_id == d then some it else none) ≡ some page
      kept = rw (h) refl

  -- The index has the page with a number and a word.
  pub some_page-indexed :
      (d : ℕ) (w : Text) (pages : List (WebPage W)) (m : List (ℕ × WebPage W))
      → IsNumbered pages
      → find d m ≡ none
      → some_page d w pages ≡ true
      → (page : WebPage W) × (find d (indexed pages m) ≡ some page)
        × (has_word w page.term_frequencies ≡ true)
  unfolding indexed some_page or_else
  some_page-indexed d w [] m v e h = cc
  some_page-indexed d w (it ∷ rest) m v e h = elim (Bool-cases (nat_beq it.doc_id d)) [
    | inl here ↦
        let same_number : it.doc_id ≡ d = (nat_beq_iff it.doc_id d).0 here in
        let not_later : some_page d w rest ≡ false =
          some_page-false d w rest (ap (λ k. has_id k rest) (sym same_number) ∙ v.0) in
        let placed : find d (insert unordered it.doc_id it m) ≡ some it =
          find-insert_or unordered it.doc_id d it m ∙ rw (e, here) refl in
        (
          it,
          find-indexed d rest (insert unordered it.doc_id it m) it placed,
          ground (arith, h, not_later),
        )
    | inr other ↦
        let absent : find d (insert unordered it.doc_id it m) ≡ none =
          find-insert_or unordered it.doc_id d it m ∙ rw (e, other) refl in
        some_page-indexed d w rest (insert unordered it.doc_id it m) v.1 absent
          (ground (arith, h, other))
  ]
