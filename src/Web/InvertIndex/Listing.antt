-- ===== src/Web/InvertIndex/Listing.antt =====
-- Which pages the table of `BuildInvertIndexTable` of src/web/page_lib_preprocessor.cc lists.
use serach_engine.Base.{
  ℕ, suc, ◌≡◌, refl, ap, ◌∙◌, Text, Bool, true, false, ◌&&◌, ◌||◌, List, [], ◌∷◌, Option, none,
  some, length, if◌then◌else◌, ◌==◌, text_eq, nat_eq, same_iff, nat_beq, arith, Bool-cases, inl,
  inr,
}
use serach_engine.Base.Maps.{
  find, put, insert, find-put, find-insert_or, or_else, count_of, unordered,
}
use serach_engine.Web.Caculate.{add_weights, sum_squares}
use serach_engine.Web.Double.{Double}
use serach_engine.Web.InvertIndex.{
  docs_of, touch_terms, insert_posting, add_postings, index_terms, build_invert_index_table,
}
use serach_engine.Web.Preprocessor.{Preprocessor}
use serach_engine.Web.Query.Pages.{has}
use serach_engine.Web.WebPage.{WebPage}

unfoldable pub is_some {ℓ} : {V : Type ℓ} → Option V → Bool
is_some none = false
is_some (some v) = true

-- The map has the word.
unfoldable pub has_word {ℓ} : {V : Type ℓ} → Text → List (Text × V) → Bool
unfolding is_some
has_word w m = is_some (find w m)

-- A page of the list has the number and the word.
unfoldable pub some_page : {W : Type 0} → ℕ → Text → List (WebPage W) → Bool
some_page d w [] = false
some_page d w (page ∷ rest) =
    (nat_beq page.doc_id d && has_word w page.term_frequencies) || some_page d w rest

pub has_word-insert {ℓ} :
    {V : Type ℓ} (k w : Text) (v : V) (m : List (Text × V))
    → has_word w (insert unordered k v m) ≡ (has_word w m || k == w)
unfolding has_word is_some or_else
has_word-insert {V} k w v m =
    ap is_some (find-insert_or unordered k w v m) ∙ either (find w m) (k == w)
  where
    either :
        (o : Option V) (b : Bool)
        → is_some (or_else o (if b then some v else none)) ≡ (is_some o || b)
    either none true = refl
    either none false = refl
    either (some u) b = refl

pub has_word-nil {ℓ} : (V : Type ℓ) (w : Text) → has_word {V = V} w [] ≡ false
unfolding has_word is_some find
has_word-nil V w = refl

pub docs_of-put {ℓ} :
    {V : Type ℓ} (x w : Text) (docs : List (ℕ × V)) (table : List (Text × List (ℕ × V)))
    → docs_of w (put unordered x docs table) ≡ (if x == w then docs else docs_of w table)
unfolding docs_of
docs_of-put {V} x w docs table = ap listed (find-put unordered x w docs table) ∙ either (x == w)
  where
    listed : Option (List (ℕ × V)) → List (ℕ × V)
    listed o = elim o [ none ↦ [] | some ds ↦ ds ]

    either :
        (b : Bool)
        → listed (if b then some docs else find w table)
          ≡ (if b then docs else listed (find w table))
    either true = refl
    either false = refl

pub has_word-cons {ℓ} :
    {V : Type ℓ} (x w : Text) (v : V) (m : List (Text × V))
    → has_word w ((x, v) ∷ m) ≡ (x == w || has_word w m)
unfolding has_word is_some find
has_word-cons x w v m = ground arith

module _ (D : Double) where
  pub has-insert_posting :
      (d id : ℕ) (v : D.Carrier) (docs : List (ℕ × D.Carrier))
      → has d (insert_posting D id v docs) ≡ (nat_beq id d || has d docs)
  unfolding has find insert_posting
  has-insert_posting d id v [] = ground arith
  has-insert_posting d id v ((j, w) ∷ docs) = ground (arith, has-insert_posting d id v docs)

  -- The set of a word after a page is put into the set of another.
  has-put :
      (d id : ℕ) (x w : Text) (v : D.Carrier) (table : List (Text × List (ℕ × D.Carrier)))
      → has d (docs_of w (put unordered x (insert_posting D id v (docs_of x table)) table))
        ≡ ((nat_beq id d && x == w) || has d (docs_of w table))
  has-put d id x w v table = elim (Bool-cases (x == w)) [
    | inl e ↦
        let same_word : x ≡ w = (same_iff x w).0 e in
        rw (docs_of-put x w (insert_posting D id v (docs_of x table)) table, e)
          (has-insert_posting d id v (docs_of x table) ∙ ground (arith, same_word))
    | inr e ↦ rw (docs_of-put x w (insert_posting D id v (docs_of x table)) table, e) ground arith
  ]

  pub has-add_postings :
      (d id : ℕ) (norm : D.Carrier) (w : Text) (ws : List (Text × D.Carrier))
      (table : List (Text × List (ℕ × D.Carrier)))
      → has d (docs_of w (add_postings D id norm ws table))
        ≡ ((nat_beq id d && has_word w ws) || has d (docs_of w table))
  unfolding add_postings
  has-add_postings d id norm w [] table = ground (arith, has_word-nil D.Carrier w)
  has-add_postings d id norm w ((x, v) ∷ ws) table =
      has-add_postings d id norm w ws _
      ∙ ground (arith, has-put d id x w (D.over v norm) table, has_word-cons x w v ws)

  pub has_word-add_weights :
      (w : Text) (terms : List (Text × ℕ)) (df : List (Text × ℕ)) (total : ℕ)
      (made : List (Text × D.Carrier))
      → has_word w (add_weights D terms df total made) ≡ (has_word w terms || has_word w made)
  unfolding add_weights
  has_word-add_weights w [] df total made = ground (arith, has_word-nil ℕ w)
  has_word-add_weights w ((x, n) ∷ terms) df total made =
      has_word-add_weights w terms df total _
      ∙ ground (
        arith,
        has_word-insert x w
            (D.times (D.of_nat n)
              (D.log2 (D.over (D.of_nat total) (D.of_nat (suc (count_of x df))))))
            made,
        has_word-cons x w n terms,
      )

  has-index_terms :
      (d : ℕ) (w : Text) (pages : List (WebPage D.Carrier)) (total : ℕ) (df : List (Text × ℕ))
      (table : List (Text × List (ℕ × D.Carrier)))
      → has d (docs_of w (index_terms D pages total df table).0)
        ≡ (some_page d w pages || has d (docs_of w table))
  unfolding index_terms some_page
  has-index_terms d w [] total df table = refl
  has-index_terms d w (page ∷ pages) total df table =
      let weights = add_weights D page.term_frequencies df total [] in
      has-index_terms d w pages total (touch_terms page.term_frequencies df) _
      ∙ ground (
        arith,
        has-add_postings d page.doc_id (D.sqrt (sum_squares D weights (D.of_nat 0))) w weights
            table,
        has_word-add_weights w page.term_frequencies df total [],
        has_word-nil D.Carrier w,
      )

  -- BuildInvertIndexTable lists a page number under a word exactly when it was listed there before
  -- or a page with that number in the page list has the word.
  pub build_invert_index_table-some_page :
      (d : ℕ) (w : Text) (p : Preprocessor D.Carrier)
      → has d (docs_of w (build_invert_index_table D p).invert_index_table)
        ≡ (some_page d w p.page_lib_list || has d (docs_of w p.invert_index_table))
  unfolding build_invert_index_table
  build_invert_index_table-some_page d w p =
      has-index_terms d w p.page_lib_list (length p.page_lib_list) p.document_frequencies
        p.invert_index_table
