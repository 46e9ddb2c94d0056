-- ===== src/Web/Preprocessor/Redundant.antt =====
-- `RmRedundantPages` of src/web/page_lib_preprocessor.cc: what it keeps.
use serach_engine.Base.{
  All, ok, ℕ, zero, suc, ◌≡◌, ◌≤◌, refl, Bool, true, false, List, [], ◌∷◌, length, ◌⊎◌, arith,
  Bool-cases, inl, inr,
}
use serach_engine.Web.Preprocessor.Hashed.{
  HasHash, hash_of, unequal_to, thinned, rm_redundant_pages-ok,
}
use serach_engine.Web.Preprocessor.{Preprocessor, rm_redundant_pages}
use serach_engine.Web.WebPage.{WebPage}

module _ {W : Type 0} (is_equal : ℕ → ℕ → Bool) where
  -- No page of the list is equal to `page`.
  abbrev pub IsNew : WebPage W → List (WebPage W) → Type 0
  IsNew page [] = Unit {0}
  IsNew page (other ∷ rest) = (is_equal (hash_of page) (hash_of other) ≡ false) × IsNew page rest

  -- No page is equal to one that stands before it.
  abbrev pub IsUnequal : List (WebPage W) → Type 0
  IsUnequal [] = Unit {0}
  IsUnequal (page ∷ rest) = IsNew page rest × IsUnequal rest

  -- The page is in the list, or a page of the list is equal to it.
  abbrev pub IsKept : WebPage W → List (WebPage W) → Type 0
  IsKept page [] = ⊥
  IsKept page (other ∷ rest) =
      (page ≡ other) ⊎ (is_equal (hash_of other) (hash_of page) ≡ true) ⊎ IsKept page rest

  abbrev pub AllKept : List (WebPage W) → List (WebPage W) → Type 0
  AllKept [] kept = Unit {0}
  AllKept (page ∷ rest) kept = IsKept page kept × AllKept rest kept

  -- The second list is the first with pages left out, in the same order.
  abbrev pub IsThinned : List (WebPage W) → List (WebPage W) → Type 0
  IsThinned pages [] = Unit {0}
  IsThinned [] (k ∷ kept) = ⊥
  IsThinned (page ∷ pages) (k ∷ kept) =
      ((page ≡ k) × IsThinned pages kept) ⊎ IsThinned pages (k ∷ kept)

  unequal_to-IsNew :
      (it : WebPage W) (pages : List (WebPage W)) → IsNew it (unequal_to is_equal it pages)
  unfolding unequal_to
  unequal_to-IsNew it [] = tt
  unequal_to-IsNew it (p ∷ pages) = ground (arith, unequal_to-IsNew it pages)

  IsNew-unequal_to :
      (page it : WebPage W) (pages : List (WebPage W))
      → IsNew page pages
      → IsNew page (unequal_to is_equal it pages)
  unfolding unequal_to
  IsNew-unequal_to page it [] h = tt
  IsNew-unequal_to page it (p ∷ pages) h = ground (arith, IsNew-unequal_to page it pages h.1, h.0)

  length-unequal_to :
      (it : WebPage W) (pages : List (WebPage W))
      → length (unequal_to is_equal it pages) ≤ length pages
  unfolding unequal_to
  length-unequal_to it [] = omega arith
  length-unequal_to it (p ∷ pages) = ground (arith, length-unequal_to it pages)

  IsNew-thinned :
      (fuel : ℕ) (page : WebPage W) (pages : List (WebPage W))
      → IsNew page pages
      → IsNew page (thinned is_equal fuel pages)
  unfolding thinned
  IsNew-thinned zero page pages h = h
  IsNew-thinned (suc fuel) page [] h = tt
  IsNew-thinned (suc fuel) page (it ∷ rest) h = (
    h.0,
    IsNew-thinned fuel page (unequal_to is_equal it rest) (IsNew-unequal_to page it rest h.1),
  )

  thinned-IsUnequal :
      (fuel : ℕ) (pages : List (WebPage W))
      → length pages ≤ fuel
      → IsUnequal (thinned is_equal fuel pages)
  unfolding thinned
  thinned-IsUnequal zero [] h = tt
  thinned-IsUnequal zero (it ∷ rest) h = absurd (omega arith)
  thinned-IsUnequal (suc fuel) [] h = tt
  thinned-IsUnequal (suc fuel) (it ∷ rest) h = (
    IsNew-thinned fuel it (unequal_to is_equal it rest) (unequal_to-IsNew it rest),
    thinned-IsUnequal fuel (unequal_to is_equal it rest) (omega (arith, length-unequal_to it rest)),
  )

  -- Of the pages behind `it`: each is equal to `it`, or is kept by whatever keeps those left.
  AllKept-unequal_to :
      (it : WebPage W) (pages kept : List (WebPage W))
      → AllKept (unequal_to is_equal it pages) kept
      → AllKept pages (it ∷ kept)
  unfolding unequal_to
  AllKept-unequal_to it [] kept h = tt
  AllKept-unequal_to it (p ∷ pages) kept h = elim (Bool-cases (is_equal (hash_of it) (hash_of p))) [
    | inl e ↦ (inr (inl e), AllKept-unequal_to it pages kept (rw e at h))
    | inr e ↦
        let (k, ks) : AllKept (p ∷ unequal_to is_equal it pages) kept = rw e at h in
        (inr (inr k), AllKept-unequal_to it pages kept ks)
  ]

  thinned-AllKept :
      (fuel : ℕ) (pages : List (WebPage W))
      → length pages ≤ fuel
      → AllKept pages (thinned is_equal fuel pages)
  unfolding thinned
  thinned-AllKept zero [] h = tt
  thinned-AllKept zero (it ∷ rest) h = absurd (omega arith)
  thinned-AllKept (suc fuel) [] h = tt
  thinned-AllKept (suc fuel) (it ∷ rest) h = (
    inl refl,
    AllKept-unequal_to it rest (thinned is_equal fuel (unequal_to is_equal it rest)) (
        thinned-AllKept fuel (unequal_to is_equal it rest)
          (omega (arith, length-unequal_to it rest))),
  )

  IsThinned-skip :
      (page : WebPage W) (pages kept : List (WebPage W))
      → IsThinned pages kept
      → IsThinned (page ∷ pages) kept
  IsThinned-skip page pages [] h = tt
  IsThinned-skip page pages (k ∷ kept) h = inr h

  IsThinned-unequal_to :
      (it : WebPage W) (pages kept : List (WebPage W))
      → IsThinned (unequal_to is_equal it pages) kept
      → IsThinned pages kept
  unfolding unequal_to
  IsThinned-unequal_to it [] kept h = h
  IsThinned-unequal_to it (p ∷ pages) [] h = tt
  IsThinned-unequal_to it (p ∷ pages) (k ∷ kept) h =
      elim (Bool-cases (is_equal (hash_of it) (hash_of p))) [
        | inl e ↦ inr (IsThinned-unequal_to it pages (k ∷ kept) (rw e at h))
        | inr e ↦
            let h' : IsThinned (p ∷ unequal_to is_equal it pages) (k ∷ kept) = rw e at h in
            elim h' [
              | inl (q, t) ↦ inl (q, IsThinned-unequal_to it pages kept t)
              | inr t ↦ inr (IsThinned-unequal_to it pages (k ∷ kept) t)
            ]
      ]

  thinned-IsThinned :
      (fuel : ℕ) (pages : List (WebPage W))
      → length pages ≤ fuel
      → IsThinned pages (thinned is_equal fuel pages)
  unfolding thinned
  thinned-IsThinned zero [] h = tt
  thinned-IsThinned zero (it ∷ rest) h = absurd (omega arith)
  thinned-IsThinned (suc fuel) [] h = tt
  thinned-IsThinned (suc fuel) (it ∷ rest) h = inl (
    refl,
    IsThinned-unequal_to it rest (thinned is_equal fuel (unequal_to is_equal it rest)) (
        thinned-IsThinned fuel (unequal_to is_equal it rest)
          (omega (arith, length-unequal_to it rest))),
  )

  -- When every page has a similarity hash, RmRedundantPages succeeds and leaves the pages in
  -- order, none equal to one before it, and every page of the list before is there or is equal to
  -- one that is there, whatever the similarity test is; the other members stay as they are.
  pub rm_redundant_pages-IsUnequal :
      (p : Preprocessor W)
      → All HasHash p.page_lib_list
      → (kept : List (WebPage W)) × (rm_redundant_pages is_equal p
          ≡ ok (record p { page_lib_list = kept }))
        × IsUnequal kept
        × AllKept p.page_lib_list kept
        × IsThinned p.page_lib_list kept
  rm_redundant_pages-IsUnequal p h = (
    thinned is_equal (length p.page_lib_list) p.page_lib_list,
    rm_redundant_pages-ok is_equal p h,
    thinned-IsUnequal (length p.page_lib_list) p.page_lib_list (omega arith),
    thinned-AllKept (length p.page_lib_list) p.page_lib_list (omega arith),
    thinned-IsThinned (length p.page_lib_list) p.page_lib_list (omega arith),
  )
