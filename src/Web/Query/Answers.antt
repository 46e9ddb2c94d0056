-- ===== src/Web/Query/Answers.antt =====
-- What the answer of `DoQuery` of src/web/web_page_query.cc is made of.
use mathlib.Core.Path.{subst}
use serach_engine.Base.{
  ℕ, ◌≡◌, refl, sym, ap, ◌∙◌, Text, true, ok, >>=-eq-ok, List, [], ◌∷◌, some, length, nat_eq,
  nat_beq_iff, arith, Bool-cases, Option-cases, inl, inr, ◌==◌, fault, Fault, OnOk-ok,
}
use serach_engine.Base.Maps.{find}
use serach_engine.Base.Sets.{contains}
use serach_engine.Web.Caculate.{caculate_value}
use serach_engine.Web.Double.{Double}
use serach_engine.Web.Preprocessor.{Preprocessor}
use serach_engine.Web.Query.Ranking.{AllPlaced, IsPlaced, IsFrom}
use serach_engine.Web.Query.{query_vector, page_vectors, caculate_cos_similarity}
use serach_engine.Web.WebPage.{WebPage}

module _ (D : Double) (pre : Preprocessor D.Carrier) (words : List (Text × ℕ)) where
  -- The weights of the query, and of its words in a page.
  abbrev pub base_vector : List (Text × D.Carrier)
  base_vector = caculate_value D words pre.document_frequencies (length pre.page_lib_list)

  abbrev pub vector_of : WebPage D.Carrier → List (Text × D.Carrier)
  vector_of page =
      query_vector D words
        (caculate_value D page.term_frequencies pre.document_frequencies (length pre.page_lib_list))
        []

  -- The page with this number has this cosine with the query.
  abbrev pub IsScored : ℕ → D.Carrier → Type 0
  IsScored d c =
      (page : WebPage D.Carrier) × (find d pre.indexed_page_lib_list ≡ some page)
      × (caculate_cos_similarity D base_vector (vector_of page) ≡ ok c)

  -- The vectors of the pages with these numbers.
  abbrev pub AreVectors : List ℕ → List (ℕ × List (Text × D.Carrier)) → Type 0
  AreVectors [] [] = Unit {0}
  AreVectors [] (v ∷ vs) = ⊥
  AreVectors (d ∷ ds) [] = ⊥
  AreVectors (d ∷ ds) ((e, vector) ∷ vs) =
      ((e ≡ d)
        × ((page : WebPage D.Carrier) × (find d pre.indexed_page_lib_list ≡ some page)
            × (vector ≡ vector_of page)))
      × AreVectors ds vs

  pub page_vectors-AreVectors :
      (ds : List ℕ) (vectors : List (ℕ × List (Text × D.Carrier)))
      → page_vectors D pre words ds ≡ ok vectors
      → AreVectors ds vectors
  unfolding page_vectors
  page_vectors-AreVectors [] vectors h = OnOk-ok (AreVectors []) [] tt vectors h
  page_vectors-AreVectors (d ∷ ds) vectors h =
      elim (Option-cases (find d pre.indexed_page_lib_list)) [
        | inl absent ↦
            let e : fault Fault.undefined ≡ ok vectors = rw (absent, page_vectors) at h in cc
        | inr (page, found) ↦
            let (rest, run, made) =
              >>=-eq-ok (page_vectors D pre words ds) (λ vs. ok ((d, vector_of page) ∷ vs))
                (rw (found, page_vectors) at h) in
            OnOk-ok (AreVectors (d ∷ ds)) ((d, vector_of page) ∷ rest)
              ((refl, (page, found, refl)), page_vectors-AreVectors ds rest run) vectors made
      ]

  -- Every page found has its cosine and is placed by it.
  pub AllPlaced-contains :
      (d : ℕ) (ds : List ℕ) (vectors : List (ℕ × List (Text × D.Carrier)))
      (order : List (D.Carrier × ℕ))
      → AreVectors ds vectors
      → AllPlaced D base_vector vectors order
      → contains d ds ≡ true
      → (c : D.Carrier) × IsScored d c × IsPlaced D c d order
  unfolding contains
  AllPlaced-contains d [] [] order v p h = cc
  AllPlaced-contains d [] (w ∷ vs) order v p h = absurd v
  AllPlaced-contains d (e ∷ ds) [] order v p h = absurd v
  AllPlaced-contains d (e ∷ ds) ((e', vector) ∷ vs) order ((same, (page, found, made)), v)
        ((c, (cos, placed)), p) h =
      elim (Bool-cases (e == d)) [
        | inl hit ↦
            let number : e ≡ d = (nat_beq_iff e d).0 hit in
            (
              c,
              (
                page,
                ap (λ k. find k pre.indexed_page_lib_list) (sym number) ∙ found,
                ap (caculate_cos_similarity D base_vector) (sym made) ∙ cos,
              ),
              subst (λ k. IsPlaced D c k order) (same ∙ number) placed,
            )
        | inr other ↦ AllPlaced-contains d ds vs order v p (ground (arith, h, other))
      ]

  -- What stands in the order is a page found, with its cosine.
  pub IsFrom-contains :
      (c : D.Carrier) (d : ℕ) (ds : List ℕ) (vectors : List (ℕ × List (Text × D.Carrier)))
      → AreVectors ds vectors
      → IsFrom D base_vector vectors (c, d)
      → (contains d ds ≡ true) × IsScored d c
  unfolding contains
  IsFrom-contains c d [] [] v f = absurd f
  IsFrom-contains c d [] (w ∷ vs) v f = absurd v
  IsFrom-contains c d (e ∷ ds) [] v f = absurd v
  IsFrom-contains c d (e ∷ ds) ((e', vector) ∷ vs) ((same, (page, found, made)), v)
        (inl (cos, here)) =
      let number : e ≡ d = sym (here ∙ same) in
      (
        ground (arith, (nat_beq_iff e d).1 number),
        (
          page,
          ap (λ k. find k pre.indexed_page_lib_list) (sym number) ∙ found,
          ap (caculate_cos_similarity D base_vector) (sym made) ∙ cos,
        ),
      )
  IsFrom-contains c d (e ∷ ds) ((e', vector) ∷ vs) (first, v) (inr f) =
      let (there, scored) = IsFrom-contains c d ds vs v f in (ground (arith, there), scored)
