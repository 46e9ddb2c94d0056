-- ===== src/Web/Query/Ranking.antt =====
-- The order of the answers: `GetPagesOrder` of src/web/web_page_query.cc, and when `DoQuery`
-- throws.
use mathlib.Core.Path.{subst}
use serach_engine.Base.{
  All, >>=-eq-ok, ℕ, ◌≡◌, refl, Text, Bool, true, false, ◌⊎◌, List, [], ◌∷◌, some, ok,
  if◌then◌else◌, text_eq, arith, Bool-cases, inl, inr,
}
use serach_engine.Base.Maps.{find}
use serach_engine.Web.Double.{Double}
use serach_engine.Web.Query.{
  dot_product, caculate_cos_similarity, insert_page, rank_pages, doc_ids, get_pages_order,
}

module _ (D : Double) where
  -- Every cosine is greater than `c`'s below it.
  abbrev IsBelow : D.Carrier → List (D.Carrier × ℕ) → Type 0
  IsBelow c [] = Unit {0}
  IsBelow c ((d, doc) ∷ rest) = (D.greater c d ≡ true) × IsBelow c rest

  -- The cosines descend.
  abbrev pub IsDescending : List (D.Carrier × ℕ) → Type 0
  IsDescending [] = Unit {0}
  IsDescending ((c, doc) ∷ rest) = IsBelow c rest × IsDescending rest

  -- Neither is greater: what `std::map` takes for the same key.
  unfoldable pub same_cosine : D.Carrier → D.Carrier → Bool
  same_cosine c d = if D.greater c d then false else if D.greater d c then false else true

  -- The page stands in the order, or another one with its cosine does.
  abbrev pub IsPlaced : D.Carrier → ℕ → List (D.Carrier × ℕ) → Type 0
  IsPlaced c doc_id [] = ⊥
  IsPlaced c doc_id ((d, other) ∷ rest) =
      ((c ≡ d) × (doc_id ≡ other)) ⊎ (same_cosine c d ≡ true) ⊎ IsPlaced c doc_id rest

  IsBelow-insert_page :
      (b c : D.Carrier) (doc_id : ℕ) (ranked : List (D.Carrier × ℕ))
      → D.greater b c ≡ true
      → IsBelow b ranked
      → IsBelow b (insert_page D c doc_id ranked)
  unfolding insert_page
  IsBelow-insert_page b c doc_id [] g h = (g, tt)
  IsBelow-insert_page b c doc_id ((d, other) ∷ rest) g h =
      ground (arith, IsBelow-insert_page b c doc_id rest g h.1, h.0)

  IsBelow-trans :
      (b c : D.Carrier) (ranked : List (D.Carrier × ℕ))
      → D.greater b c ≡ true
      → IsBelow c ranked
      → IsBelow b ranked
  IsBelow-trans b c [] g h = tt
  IsBelow-trans b c ((d, other) ∷ rest) g h =
      (D.greater_trans b c d g h.0, IsBelow-trans b c rest g h.1)

  insert_page-IsDescending :
      (c : D.Carrier) (doc_id : ℕ) (ranked : List (D.Carrier × ℕ))
      → IsDescending ranked
      → IsDescending (insert_page D c doc_id ranked)
  unfolding insert_page
  insert_page-IsDescending c doc_id [] h = (tt, tt)
  insert_page-IsDescending c doc_id ((d, other) ∷ rest) h = elim (Bool-cases (D.greater c d)) [
    | inl g ↦ rw g ((g, IsBelow-trans c d rest g h.0), h)
    | inr g ↦ elim (Bool-cases (D.greater d c)) [
      | inl g' ↦
          rw (g, g')
            (IsBelow-insert_page d c doc_id rest g' h.0, insert_page-IsDescending c doc_id rest h.1)
      | inr g' ↦ rw (g, g') h
    ]
  ]

  insert_page-IsPlaced :
      (c : D.Carrier) (doc_id : ℕ) (ranked : List (D.Carrier × ℕ))
      → IsPlaced c doc_id (insert_page D c doc_id ranked)
  unfolding insert_page same_cosine
  insert_page-IsPlaced c doc_id [] = inl (refl, refl)
  insert_page-IsPlaced c doc_id ((d, other) ∷ rest) = elim (Bool-cases (D.greater c d)) [
    | inl g ↦ rw g (inl (refl, refl))
    | inr g ↦ elim (Bool-cases (D.greater d c)) [
      | inl g' ↦ rw (g, g') (inr (inr (insert_page-IsPlaced c doc_id rest)))
      | inr g' ↦
          let equal : same_cosine c d ≡ true = rw (g, g', same_cosine) refl in
          rw (g, g') (inr (inl equal))
    ]
  ]

  -- A page that is placed stays so.
  IsPlaced-insert_page :
      (b : D.Carrier) (placed : ℕ) (c : D.Carrier) (doc_id : ℕ) (ranked : List (D.Carrier × ℕ))
      → IsPlaced b placed ranked
      → IsPlaced b placed (insert_page D c doc_id ranked)
  unfolding insert_page
  IsPlaced-insert_page b placed c doc_id [] h = absurd h
  IsPlaced-insert_page b placed c doc_id ((d, other) ∷ rest) h = elim (Bool-cases (D.greater c d)) [
    | inl g ↦ rw g (inr (inr h))
    | inr g ↦ elim (Bool-cases (D.greater d c)) [
      | inl g' ↦ rw (g, g') (kept h (IsPlaced-insert_page b placed c doc_id rest))
      | inr g' ↦ rw (g, g') h
    ]
  ]
    where
      kept :
          IsPlaced b placed ((d, other) ∷ rest)
          → (IsPlaced b placed rest → IsPlaced b placed (insert_page D c doc_id rest))
          → IsPlaced b placed ((d, other) ∷ insert_page D c doc_id rest)
      kept (inl e) f = inl e
      kept (inr (inl e)) f = inr (inl e)
      kept (inr (inr l)) f = inr (inr (f l))

  -- Every word of `x` is in `y`.
  abbrev pub IsCovered : List (Text × D.Carrier) → List (Text × D.Carrier) → Type 0
  IsCovered [] y = Unit {0}
  IsCovered ((word, w) ∷ rest) y = ((v : D.Carrier) × (find word y ≡ some v)) × IsCovered rest y

  abbrev pub AllCovered : List (Text × D.Carrier) → List (ℕ × List (Text × D.Carrier)) → Type 0
  AllCovered base [] = Unit {0}
  AllCovered base ((doc_id, vector) ∷ rest) = IsCovered base vector × AllCovered base rest

  -- Every page has a cosine and stands in the order with it, or another page with that cosine does.
  abbrev pub AllPlaced :
      List (Text × D.Carrier) → List (ℕ × List (Text × D.Carrier)) → List (D.Carrier × ℕ) → Type 0
  AllPlaced base [] ranked = Unit {0}
  AllPlaced base ((doc_id, vector) ∷ rest) ranked =
      ((c : D.Carrier) × ((caculate_cos_similarity D base vector ≡ ok c)
          × IsPlaced c doc_id ranked))
      × AllPlaced base rest ranked

  dot_product-ok :
      (x y : List (Text × D.Carrier)) (sum : D.Carrier)
      → IsCovered x y
      → (total : D.Carrier) × (dot_product D x y sum ≡ ok total)
  unfolding dot_product
  dot_product-ok [] y sum h = (sum, refl)
  dot_product-ok ((word, w) ∷ rest) y sum ((v, e), h) =
      rw (e, dot_product) (dot_product-ok rest y (D.plus sum (D.times w v)) h)

  caculate_cos_similarity-ok :
      (x y : List (Text × D.Carrier))
      → IsCovered x y
      → (c : D.Carrier) × (caculate_cos_similarity D x y ≡ ok c)
  unfolding caculate_cos_similarity
  caculate_cos_similarity-ok x y h =
      let (total, e) = dot_product-ok x y (D.of_nat 0) h in rw e (_, refl)

  -- The loop from any order; what was placed stays placed.
  rank_pages-IsDescending :
      (base : List (Text × D.Carrier)) (vectors : List (ℕ × List (Text × D.Carrier)))
      (ranked : List (D.Carrier × ℕ))
      → AllCovered base vectors
      → IsDescending ranked
      → (order : List (D.Carrier × ℕ)) × ((rank_pages D base vectors ranked ≡ ok order)
          × (IsDescending order
              × (AllPlaced base vectors order
                  × ((c : D.Carrier) (doc_id : ℕ)
                      → IsPlaced c doc_id ranked
                      → IsPlaced c doc_id order))))
  unfolding rank_pages
  rank_pages-IsDescending base [] ranked h d = (ranked, (refl, (d, (tt, λ c doc_id p. p))))
  rank_pages-IsDescending base ((doc_id, vector) ∷ rest) ranked (h, hs) d =
      let (c, e) = caculate_cos_similarity-ok base vector h in
      let (order, (run, (desc, (all, keep)))) =
        rank_pages-IsDescending base rest (insert_page D c doc_id ranked) hs
          (insert_page-IsDescending c doc_id ranked d) in
      (
        order,
        (
          rw e run,
          (
            desc,
            (
              ((c, (e, keep c doc_id (insert_page-IsPlaced c doc_id ranked))), all),
              λ b placed p. keep b placed (IsPlaced-insert_page b placed c doc_id ranked p),
            ),
          ),
        ),
      )

  -- The document is one of the pages, with its cosine.
  abbrev pub IsFrom :
      List (Text × D.Carrier) → List (ℕ × List (Text × D.Carrier)) → D.Carrier × ℕ → Type 0
  IsFrom base [] (c, doc) = ⊥
  IsFrom base ((doc_id, vector) ∷ rest) (c, doc) =
      ((caculate_cos_similarity D base vector ≡ ok c) × (doc ≡ doc_id)) ⊎ IsFrom base rest (c, doc)

  -- What holds of every page with its cosine.
  abbrev AllScored :
      List (Text × D.Carrier)
      → (D.Carrier × ℕ → Type 0)
      → List (ℕ × List (Text × D.Carrier))
      → Type 0
  AllScored base P [] = Unit {0}
  AllScored base P ((doc_id, vector) ∷ rest) =
      ((c : D.Carrier) → caculate_cos_similarity D base vector ≡ ok c → P (c, doc_id))
      × AllScored base P rest

  insert_page-All :
      (P : D.Carrier × ℕ → Type 0) (c : D.Carrier) (doc_id : ℕ) (ranked : List (D.Carrier × ℕ))
      → P (c, doc_id)
      → All P ranked
      → All P (insert_page D c doc_id ranked)
  unfolding insert_page
  insert_page-All P c doc_id [] p h = (p, tt)
  insert_page-All P c doc_id ((d, other) ∷ rest) p h = elim (Bool-cases (D.greater c d)) [
    | inl g ↦ rw g (p, h)
    | inr g ↦ elim (Bool-cases (D.greater d c)) [
      | inl g' ↦ rw (g, g') (h.0, insert_page-All P c doc_id rest p h.1)
      | inr g' ↦ rw (g, g') h
    ]
  ]

  rank_pages-All :
      (base : List (Text × D.Carrier)) (P : D.Carrier × ℕ → Type 0)
      (vectors : List (ℕ × List (Text × D.Carrier))) (ranked order : List (D.Carrier × ℕ))
      → AllScored base P vectors
      → All P ranked
      → rank_pages D base vectors ranked ≡ ok order
      → All P order
  unfolding rank_pages
  rank_pages-All base P [] ranked order s h e =
      let same_order : ranked ≡ order = cc in subst (All P) same_order h
  rank_pages-All base P ((doc_id, vector) ∷ rest) ranked order (s, ss) h e =
      let (c, cos, run) =
        >>=-eq-ok (caculate_cos_similarity D base vector)
          (λ c. rank_pages D base rest (insert_page D c doc_id ranked)) e in
      rank_pages-All base P rest (insert_page D c doc_id ranked) order ss
        (insert_page-All P c doc_id ranked (s c cos) h) run

  AllScored-mono :
      (base : List (Text × D.Carrier)) (P Q : D.Carrier × ℕ → Type 0)
      (vectors : List (ℕ × List (Text × D.Carrier)))
      → ((e : D.Carrier × ℕ) → P e → Q e)
      → AllScored base P vectors
      → AllScored base Q vectors
  AllScored-mono base P Q [] f h = tt
  AllScored-mono base P Q ((doc_id, vector) ∷ rest) f h =
      (λ c cos. f (c, doc_id) (h.0 c cos), AllScored-mono base P Q rest f h.1)

  IsFrom-AllScored :
      (base : List (Text × D.Carrier)) (vectors : List (ℕ × List (Text × D.Carrier)))
      → AllScored base (IsFrom base vectors) vectors
  IsFrom-AllScored base [] = tt
  IsFrom-AllScored base ((doc_id, vector) ∷ rest) = (
    λ c cos. inl (cos, refl),
    AllScored-mono base (IsFrom base rest) (IsFrom base ((doc_id, vector) ∷ rest)) rest
        (λ e p. inr p) (IsFrom-AllScored base rest),
  )

  -- When every page has every word of the query, GetPagesOrder does not throw: it returns the
  -- documents of an order in which the cosines descend, each page stands there with its cosine
  -- unless another page with that cosine does, and nothing else stands there.
  pub get_pages_order-IsDescending :
      (base : List (Text × D.Carrier)) (vectors : List (ℕ × List (Text × D.Carrier)))
      → AllCovered base vectors
      → (order : List (D.Carrier × ℕ)) × ((get_pages_order D base vectors ≡ ok (doc_ids D order))
          × (IsDescending order × (AllPlaced base vectors order × All (IsFrom base vectors) order)))
  unfolding get_pages_order
  get_pages_order-IsDescending base vectors h =
      let (order, (run, (desc, (all, keep)))) = rank_pages-IsDescending base vectors [] h tt in
      let from : All (IsFrom base vectors) order =
        rank_pages-All base (IsFrom base vectors) vectors [] order (IsFrom-AllScored base vectors)
          tt run in
      (order, (rw run refl, (desc, (all, from))))
