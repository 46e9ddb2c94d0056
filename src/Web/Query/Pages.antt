-- ===== src/Web/Query/Pages.antt =====
-- What `GetRelativePages` of src/web/web_page_query.cc finds.
use mathlib.Core.Path.{subst}
use serach_engine.Base.{
  sym, ℕ, suc, ◌+◌, ◌≡◌, ◌≤◌, refl, Text, Bool, true, false, ◌&&◌, List, [], ◌∷◌, Option, none,
  some, length, if◌then◌else◌, ◌==◌, nat_beq, nat_eq, text_eq, arith, Bool-cases, Option-cases, inl,
  inr,
}
use serach_engine.Base.Maps.{find, put, assign, place, bump, count_of, count_of-bump, unordered}
use serach_engine.Base.Sets.{contains}
use serach_engine.Web.Query.{count_pages, count_all, select, get_relative_pages}

module _ {ℓ} {V : Type ℓ} where
  -- The map has the key.
  unfoldable pub has : ℕ → List (ℕ × V) → Bool
  has k m = elim (find k m) [ none ↦ false | some v ↦ true ]

  -- No key stands twice.
  abbrev pub IsDistinct : List (ℕ × V) → Type 0
  IsDistinct [] = Unit {0}
  IsDistinct ((k, v) ∷ m) = (has k m ≡ false) × IsDistinct m

  -- Every word of the query is in the table with this document.
  unfoldable pub listed : ℕ → List (Text × ℕ) → List (Text × List (ℕ × V)) → Bool
  unfolding has
  listed d [] table = true
  listed d ((word, n) ∷ rest) table = elim (find word table) [
    | none ↦ false
    | some docs ↦ has d docs && listed d rest table
  ]

  -- Every list of the table has each document once.
  abbrev pub IsTable : List (Text × List (ℕ × V)) → Type 0
  IsTable [] = Unit {0}
  IsTable ((word, docs) ∷ table) = IsDistinct docs × IsTable table

  -- The list of a word, if there is one, has each document once.
  abbrev pub IsListed : Option (List (ℕ × V)) → Type 0
  IsListed none = Unit {0}
  IsListed (some docs) = IsDistinct docs

  pub find-IsListed :
      (word : Text) (table : List (Text × List (ℕ × V)))
      → IsTable table
      → IsListed (find word table)
  unfolding find
  find-IsListed word [] t = tt
  find-IsListed word ((w, docs) ∷ table) t = elim (Bool-cases (w == word)) [
    | inl e ↦ rw e t.0
    | inr e ↦ rw e (find-IsListed word table t.1)
  ]

  count_of-count_pages :
      (d : ℕ) (docs : List (ℕ × V)) (counts : List (ℕ × ℕ))
      → IsDistinct docs
      → count_of d (count_pages docs counts)
        ≡ (if has d docs then suc (count_of d counts) else count_of d counts)
  unfolding count_pages has find
  count_of-count_pages d [] counts h = refl
  count_of-count_pages d ((k, v) ∷ docs) counts h = ground (
    arith,
    count_of-count_pages d docs (bump k counts) h.1,
    count_of-bump k d counts,
    nat_eq.beq_iff k d,
    h.0,
  )

has-assign : (k n j : ℕ) (m : List (ℕ × ℕ)) → has j (assign k n m) ≡ has j m
unfolding assign has find
has-assign k n j [] = refl
has-assign k n j ((i, c) ∷ m) = ground (arith, has-assign k n j m)

has-place :
    (k n j : ℕ) (m : List (ℕ × ℕ))
    → has j (place unordered k n m) ≡ (if k == j then true else has j m)
unfolding place has find
has-place k n j [] = ground arith
has-place k n j ((i, c) ∷ m) = ground (arith, has-place k n j m)

assign-IsDistinct : (k n : ℕ) (m : List (ℕ × ℕ)) → IsDistinct m → IsDistinct (assign k n m)
unfolding assign
assign-IsDistinct k n [] h = tt
assign-IsDistinct k n ((i, c) ∷ m) h =
    ground (arith, assign-IsDistinct k n m h.1, has-assign k n i m)

place-IsDistinct :
    (k n : ℕ) (m : List (ℕ × ℕ))
    → has k m ≡ false
    → IsDistinct m
    → IsDistinct (place unordered k n m)
unfolding place has find
place-IsDistinct k n [] new h = (refl, tt)
place-IsDistinct k n ((i, c) ∷ m) new h =
    ground
      (arith, place-IsDistinct k n m, has-place k n i m, nat_eq.beq_iff i k, nat_eq.beq_iff k i)

bump-IsDistinct : (k : ℕ) (m : List (ℕ × ℕ)) → IsDistinct m → IsDistinct (bump k m)
unfolding bump put has
bump-IsDistinct k m h =
    ground (
      arith,
      assign-IsDistinct k (suc (count_of k m)) m h,
      place-IsDistinct k (suc (count_of k m)) m,
    )

count_pages-IsDistinct {ℓ} :
    {V : Type ℓ} (docs : List (ℕ × V)) (counts : List (ℕ × ℕ))
    → IsDistinct counts
    → IsDistinct (count_pages docs counts)
unfolding count_pages
count_pages-IsDistinct [] counts h = h
count_pages-IsDistinct ((k, v) ∷ docs) counts h =
    count_pages-IsDistinct docs (bump k counts) (bump-IsDistinct k counts h)

-- What the outer loop leaves, for one document.
abbrev IsCounted {ℓ} :
    {V : Type ℓ}
    → ℕ
    → List (Text × ℕ)
    → List (Text × List (ℕ × V))
    → ℕ
    → Option (List (ℕ × ℕ))
    → Type 0
IsCounted d words table start none = listed d words table ≡ false
IsCounted d words table start (some counts) =
    IsDistinct counts
    × (count_of d counts ≤ start + length words)
    × (nat_beq (count_of d counts) (start + length words) ≡ listed d words table)

listed-none {ℓ} :
    {V : Type ℓ} (d : ℕ) (word : Text) (n : ℕ) (rest : List (Text × ℕ))
    (table : List (Text × List (ℕ × V)))
    → find word table ≡ none
    → listed d ((word, n) ∷ rest) table ≡ false
unfolding listed
listed-none d word n rest table f = rw (f, listed) refl

listed-some {ℓ} :
    {V : Type ℓ} (d : ℕ) (word : Text) (n : ℕ) (rest : List (Text × ℕ))
    (table : List (Text × List (ℕ × V))) (docs : List (ℕ × V))
    → find word table ≡ some docs
    → listed d ((word, n) ∷ rest) table ≡ (has d docs && listed d rest table)
unfolding listed
listed-some d word n rest table docs f = rw (f, listed) refl

-- One more word, whose documents are `docs`.
IsCounted-word {ℓ} :
    {V : Type ℓ} (d : ℕ) (word : Text) (n : ℕ) (rest : List (Text × ℕ))
    (table : List (Text × List (ℕ × V))) (docs : List (ℕ × V)) (before after : ℕ)
    (o : Option (List (ℕ × ℕ)))
    → listed d ((word, n) ∷ rest) table ≡ (has d docs && listed d rest table)
    → after ≡ (if has d docs then suc before else before)
    → IsCounted d rest table after o
    → IsCounted d ((word, n) ∷ rest) table before o
IsCounted-word d word n rest table docs before after none f a h = ground arith
IsCounted-word d word n rest table docs before after (some counts) f a (h, le, eq) =
    (h, ground arith, ground arith)

count_all-IsCounted {ℓ} :
    {V : Type ℓ} (d : ℕ) (words : List (Text × ℕ)) (table : List (Text × List (ℕ × V)))
    (counts : List (ℕ × ℕ))
    → IsTable table
    → IsDistinct counts
    → IsCounted d words table (count_of d counts) (count_all words table counts)
unfolding count_all listed
count_all-IsCounted d [] table counts t h = (h, omega arith, ground arith)
count_all-IsCounted d ((word, n) ∷ rest) table counts t h = elim (Option-cases (find word table)) [
  | inl e ↦ rw (e, count_all) (listed-none d word n rest table e)
  | inr (docs, e) ↦
      let once : IsDistinct docs = subst IsListed e (find-IsListed word table t) in
      rw (e, count_all)
        (IsCounted-word d word n rest table docs (count_of d counts)
          (count_of d (count_pages docs counts)) (count_all rest table (count_pages docs counts))
          (listed-some d word n rest table docs e) (count_of-count_pages d docs counts once)
          (count_all-IsCounted d rest table (count_pages docs counts) t
            (count_pages-IsDistinct docs counts h)))
]

contains-select :
    (d n : ℕ) (counts : List (ℕ × ℕ))
    → IsDistinct counts
    → contains d (select (suc n) counts) ≡ nat_beq (count_of d counts) (suc n)
unfolding select contains count_of find has
contains-select d n [] h = ground arith
contains-select d n ((k, c) ∷ counts) h =
    ground (arith, contains-select d n counts h.1, nat_eq.beq_iff k d, h.0)

-- For a query of one word or more and a table whose lists have each document once,
-- GetRelativePages finds exactly the documents that the table lists under every word of the query.
pub get_relative_pages-listed {ℓ} :
    {V : Type ℓ} (d : ℕ) (word : Text) (n : ℕ) (rest : List (Text × ℕ))
    (table : List (Text × List (ℕ × V)))
    → IsTable table
    → contains d (get_relative_pages ((word, n) ∷ rest) table) ≡ listed d ((word, n) ∷ rest) table
unfolding get_relative_pages contains count_of find
get_relative_pages-listed d word n rest table t =
    answer (count_all ((word, n) ∷ rest) table [])
      (count_all-IsCounted d ((word, n) ∷ rest) table [] t tt)
  where
    answer :
        (o : Option (List (ℕ × ℕ)))
        → IsCounted d ((word, n) ∷ rest) table 0 o
        → contains d (elim o [ none ↦ [] | some counts ↦ select (suc (length rest)) counts ])
          ≡ listed d ((word, n) ∷ rest) table
    answer none c = sym c
    answer (some counts) (h, le, eq) = ground (arith, contains-select d (length rest) counts h, eq)
