-- ===== src/Web/Query/Words.antt =====
-- The words of the vectors of src/web/web_page_query.cc and of their weights.
use serach_engine.Base.{
  ℕ, ◌≡◌, refl, Text, Bool, true, false, ◌&&◌, ◌||◌, List, [], ◌∷◌, none, some, ◌==◌, text_eq,
  same_iff, nat_eq, arith, Bool-cases, Option-cases, inl, inr,
}
use serach_engine.Base.Maps.{find, insert, unordered}
use serach_engine.Web.Caculate.{caculate_value, add_weights, sum_squares, divide_all}
use serach_engine.Web.Double.{Double}
use serach_engine.Web.InvertIndex.Listing.{
  is_some, has_word, has_word-insert, has_word-cons, has_word-nil, has_word-add_weights,
}
use serach_engine.Web.Query.Ranking.{IsCovered}
use serach_engine.Web.Query.{query_vector}

pub find-has_word {ℓ} :
    {V : Type ℓ} (w : Text) (m : List (Text × V))
    → has_word w m ≡ true
    → (v : V) × (find w m ≡ some v)
unfolding has_word is_some
find-has_word w m h = elim (Option-cases (find w m)) [
  | inl absent ↦ absurd (ground (arith, absent, h))
  | inr found ↦ found
]

pub not_has_word {ℓ} :
    {V : Type ℓ} (w : Text) (m : List (Text × V)) → find w m ≡ none → has_word w m ≡ false
unfolding has_word is_some
not_has_word w m h = ground (arith, h)

pub has_word-some {ℓ} :
    {V : Type ℓ} (w : Text) (m : List (Text × V)) {v : V} → find w m ≡ some v → has_word w m ≡ true
unfolding has_word is_some
has_word-some w m h = ground (arith, h)

pub has_word-first :
    (word : Text) (n : ℕ) (rest : List (Text × ℕ)) → has_word word ((word, n) ∷ rest) ≡ true
has_word-first word n rest =
    ground (arith, has_word-cons word word n rest, (same_iff word word).1 refl)

pub and_first : (a b : Bool) → (a && b) ≡ true → a ≡ true
and_first a b h = ground (arith, h)

pub and_second : (a b : Bool) → (a && b) ≡ true → b ≡ true
and_second a b h = ground (arith, h)

module _ (D : Double) where
  pub has_word-query_vector :
      (w : Text) (words : List (Text × ℕ)) (all made : List (Text × D.Carrier))
      → has_word w (query_vector D words all made)
        ≡ ((has_word w words && has_word w all) || has_word w made)
  unfolding query_vector
  has_word-query_vector w [] all made = ground (arith, has_word-nil ℕ w)
  has_word-query_vector w ((x, n) ∷ words) all made = elim (Option-cases (find x all)) [
    | inl absent ↦
        rw (absent, query_vector, has_word-query_vector w words all made, has_word-cons x w n words)
          (skipped (not_has_word x all absent))
    | inr (v, found) ↦
        rw
          (
            found,
            query_vector,
            has_word-query_vector w words all (insert unordered x v made),
            has_word-insert x w v made,
            has_word-cons x w n words,
          )
          (taken (has_word-some x all found))
  ]
    where
      skipped :
          has_word x all ≡ false
          → ((has_word w words && has_word w all) || has_word w made)
            ≡ (((x == w || has_word w words) && has_word w all) || has_word w made)
      skipped h = elim (Bool-cases (x == w)) [
        | inl e ↦ let same_word : x ≡ w = (same_iff x w).0 e in ground (arith, h, same_word)
        | inr e ↦ ground (arith, e)
      ]

      taken :
          has_word x all ≡ true
          → ((has_word w words && has_word w all) || (has_word w made || x == w))
            ≡ (((x == w || has_word w words) && has_word w all) || has_word w made)
      taken h = elim (Bool-cases (x == w)) [
        | inl e ↦ let same_word : x ≡ w = (same_iff x w).0 e in ground (arith, h, same_word)
        | inr e ↦ ground (arith, e)
      ]

  pub has_word-divide_all :
      (w : Text) (norm : D.Carrier) (m : List (Text × D.Carrier))
      → has_word w (divide_all D norm m) ≡ has_word w m
  unfolding divide_all
  has_word-divide_all w norm [] = refl
  has_word-divide_all w norm ((x, v) ∷ m) = ground (
    arith,
    has_word-divide_all w norm m,
    has_word-cons x w v m,
    has_word-cons x w (D.over v norm) (divide_all D norm m),
  )

  pub has_word-caculate_value :
      (w : Text) (terms df : List (Text × ℕ)) (total : ℕ)
      → has_word w (caculate_value D terms df total) ≡ has_word w terms
  unfolding caculate_value
  has_word-caculate_value w terms df total = ground (
    arith,
    has_word-divide_all w (D.sqrt (sum_squares D (add_weights D terms df total []) (D.of_nat 0)))
        (add_weights D terms df total []),
    has_word-add_weights D w terms df total [],
    has_word-nil D.Carrier w,
  )

  -- A vector that has every word of another covers it.
  pub has_word-IsCovered :
      (x y : List (Text × D.Carrier))
      → ((w : Text) → has_word w x ≡ true → has_word w y ≡ true)
      → IsCovered D x y
  has_word-IsCovered [] y h = tt
  has_word-IsCovered ((word, v) ∷ x) y h = (
    find-has_word word y
        (h word (ground (arith, has_word-cons word word v x, (same_iff word word).1 refl))),
    has_word-IsCovered x y (λ w e. h w (ground (arith, has_word-cons word w v x, e))),
  )
