-- ===== src/Web/Building/Sets.antt =====
-- The sets of the table of `BuildInvertIndexTable` of src/web/page_lib_preprocessor.cc.
use serach_engine.Base.{
  ℕ, ◌≡◌, refl, sym, ap, ◌∙◌, Text, true, false, ◌||◌, ◌&&◌, List, [], ◌∷◌, Option, none, some,
  if◌then◌else◌, ◌==◌, nat_eq, text_eq, same_iff, nat_beq, nat_beq_iff, ltb, arith, Bool-cases,
  Option-cases, inl, inr,
}
use serach_engine.Base.Maps.{find, insert, put, assign, place, unordered}
use serach_engine.Web.Building.Numbers.{has_id, IsNumbered}
use serach_engine.Web.Caculate.{add_weights, sum_squares}
use serach_engine.Web.Double.{Double}
use serach_engine.Web.InvertIndex.Listing.{
  has_word, is_some, has_word-cons, has_word-nil, has-insert_posting, has-add_postings, docs_of-put,
}
use serach_engine.Web.InvertIndex.{docs_of, insert_posting, add_postings, index_terms, touch_terms}
use serach_engine.Web.Query.Pages.{has, IsDistinct, IsTable, IsListed, find-IsListed}
use serach_engine.Web.WebPage.{WebPage}

module _ (D : Double) where
  -- No word stands twice.
  abbrev IsOnce : List (Text × D.Carrier) → Type 0
  IsOnce [] = Unit {0}
  IsOnce ((w, v) ∷ m) = (has_word w m ≡ false) × IsOnce m

  has_word-place :
      (k w : Text) (v : D.Carrier) (m : List (Text × D.Carrier))
      → has_word w (place unordered k v m) ≡ (has_word w m || k == w)
  unfolding place
  has_word-place k w v [] = ground (arith, has_word-cons k w v [], has_word-nil D.Carrier w)
  has_word-place k w v ((j, u) ∷ m) = ground (
    arith,
    has_word-cons j w u m,
    has_word-cons j w u (place unordered k v m),
    has_word-place k w v m,
  )

  place-IsOnce :
      (k : Text) (v : D.Carrier) (m : List (Text × D.Carrier))
      → has_word k m ≡ false
      → IsOnce m
      → IsOnce (place unordered k v m)
  unfolding place
  place-IsOnce k v [] h o = (has_word-nil D.Carrier k, tt)
  place-IsOnce k v ((j, u) ∷ m) h o = (
    has_word-place k j v m
        ∙ ground (arith, o.0, h, has_word-cons j k u m, same_iff j k, same_iff k j),
    place-IsOnce k v m (ground (arith, h, has_word-cons j k u m)) o.1,
  )

  insert-IsOnce :
      (k : Text) (v : D.Carrier) (m : List (Text × D.Carrier))
      → IsOnce m
      → IsOnce (insert unordered k v m)
  unfolding insert has_word is_some
  insert-IsOnce k v m o = elim (Option-cases (find k m)) [
    | inl absent ↦ rw (absent, insert) (place-IsOnce k v m (ground (arith, absent)) o)
    | inr (u, found) ↦ rw (found, insert) o
  ]

  add_weights-IsOnce :
      (terms df : List (Text × ℕ)) (total : ℕ) (made : List (Text × D.Carrier))
      → IsOnce made
      → IsOnce (add_weights D terms df total made)
  unfolding add_weights
  add_weights-IsOnce [] df total made o = o
  add_weights-IsOnce ((word, n) ∷ terms) df total made o =
      add_weights-IsOnce terms df total _ (insert-IsOnce word _ made o)

  insert_posting-IsDistinct :
      (id : ℕ) (v : D.Carrier) (docs : List (ℕ × D.Carrier))
      → has id docs ≡ false
      → IsDistinct docs
      → IsDistinct (insert_posting D id v docs)
  unfolding insert_posting has find
  insert_posting-IsDistinct id v [] h d = (refl, tt)
  insert_posting-IsDistinct id v ((j, w) ∷ docs) h d =
      elim (Bool-cases (ltb id j || (nat_beq id j && D.greater w v))) [
        | inl before ↦ rw (before, insert_posting) (h, d)
        | inr later ↦ elim (Bool-cases (ltb j id || (nat_beq j id && D.greater v w))) [
          | inl behind ↦
              rw (later, behind, insert_posting)
                (
                  has-insert_posting D j id v docs ∙ ground (arith, h, d.0),
                  insert_posting-IsDistinct id v docs (ground (arith, h)) d.1,
                )
          | inr equal ↦ rw (later, equal, insert_posting) d
        ]
      ]

  put-IsTable :
      (x : Text) (docs : List (ℕ × D.Carrier)) (table : List (Text × List (ℕ × D.Carrier)))
      → IsDistinct docs
      → IsTable table
      → IsTable (put unordered x docs table)
  unfolding put place assign
  put-IsTable x docs table d t = elim (Option-cases (find x table)) [
    | inl absent ↦ rw (absent, put) (placed table t)
    | inr (old, found) ↦ rw (found, put) (assigned table t)
  ]
    where
      placed :
          (m : List (Text × List (ℕ × D.Carrier))) → IsTable m → IsTable (place unordered x docs m)
      placed [] s = (d, tt)
      placed ((j, u) ∷ m) s = (s.0, placed m s.1)

      assigned : (m : List (Text × List (ℕ × D.Carrier))) → IsTable m → IsTable (assign x docs m)
      assigned [] s = tt
      assigned ((j, u) ∷ m) s = elim (Bool-cases (j == x)) [
        | inl e ↦ rw (e, assign) (d, s.1)
        | inr e ↦ rw (e, assign) (s.0, assigned m s.1)
      ]

  docs_of-IsDistinct :
      (w : Text) (table : List (Text × List (ℕ × D.Carrier)))
      → IsTable table
      → IsDistinct (docs_of w table)
  unfolding docs_of
  docs_of-IsDistinct w table t = by_found (find w table) (find-IsListed w table t)
    where
      by_found :
          (o : Option (List (ℕ × D.Carrier)))
          → IsListed o
          → IsDistinct (elim o as (λ p. List (ℕ × D.Carrier)) [ none ↦ [] | some docs ↦ docs ])
      by_found none l = tt
      by_found (some docs) l = l

  add_postings-IsTable :
      (id : ℕ) (norm : D.Carrier) (ws : List (Text × D.Carrier))
      (table : List (Text × List (ℕ × D.Carrier)))
      → IsOnce ws
      → ((w : Text) → has_word w ws ≡ true → has id (docs_of w table) ≡ false)
      → IsTable table
      → IsTable (add_postings D id norm ws table)
  unfolding add_postings
  add_postings-IsTable id norm [] table o h t = t
  add_postings-IsTable id norm ((x, v) ∷ ws) table o h t =
      let docs = insert_posting D id (D.over v norm) (docs_of x table) in
      add_postings-IsTable id norm ws (put unordered x docs table) o.1
        (λ w m.
          ap (has id) (docs_of-put x w docs table ∙ untouched w m)
          ∙ h w (ground (arith, m, has_word-cons x w v ws)))
        (put-IsTable x docs table
          (insert_posting-IsDistinct id (D.over v norm) (docs_of x table)
            (h x (ground (arith, has_word-cons x x v ws, (same_iff x x).1 refl)))
            (docs_of-IsDistinct x table t))
          t)
    where
      untouched :
          (w : Text)
          → has_word w ws ≡ true
          → (if x == w
              then insert_posting D id (D.over v norm) (docs_of x table)
              else docs_of w table)
            ≡ docs_of w table
      untouched w m = elim (Bool-cases (x == w)) [
        | inl e ↦
            let twice : has_word x ws ≡ true = ap (λ k. has_word k ws) ((same_iff x w).0 e) ∙ m in
            absurd (ground (arith, twice, o.0))
        | inr e ↦ rw (e) refl
      ]

  pub index_terms-IsTable :
      (pages : List (WebPage D.Carrier)) (total : ℕ) (df : List (Text × ℕ))
      (table : List (Text × List (ℕ × D.Carrier)))
      → IsNumbered pages
      → ((d : ℕ) (w : Text) → has d (docs_of w table) ≡ true → has_id d pages ≡ false)
      → IsTable table
      → IsTable (index_terms D pages total df table).0
  unfolding index_terms has_id
  index_terms-IsTable [] total df table v h t = t
  index_terms-IsTable (page ∷ pages) total df table v h t =
      let weights = add_weights D page.term_frequencies df total [] in
      let norm = D.sqrt (sum_squares D weights (D.of_nat 0)) in
      index_terms-IsTable pages total (touch_terms page.term_frequencies df)
        (add_postings D page.doc_id norm weights table) v.1
        (λ d w m. elim (Bool-cases (has d (docs_of w table))) [
          | inl listed ↦ ground (arith, h d w listed)
          | inr absent ↦
              let same_number : page.doc_id ≡ d = ground (
                arith,
                m,
                absent,
                has-add_postings D d page.doc_id norm w weights table,
                nat_beq_iff page.doc_id d,
              ) in
              ap (λ k. has_id k pages) (sym same_number) ∙ v.0
        ])
        (add_postings-IsTable page.doc_id norm weights table
          (add_weights-IsOnce page.term_frequencies df total [] tt)
          (λ w m. elim (Bool-cases (has page.doc_id (docs_of w table))) [
            | inl listed ↦
                absurd (ground (arith, h page.doc_id w listed, nat_beq_iff page.doc_id page.doc_id))
            | inr absent ↦ absent
          ])
          t)
