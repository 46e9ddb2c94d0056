-- ===== src/Web/Building/Tests.antt =====
-- A small library, over the natural numbers as a `double`.
use mathlib.Core.List.Perm
use serach_engine.Web.Building.Ranked.{IsAnswered, do_all-IsAnswered}
use serach_engine.Web.Building.Orders.{get_relative_pages-Perm}
use serach_engine.Web.Query.Pages.{has, IsTable}
use serach_engine.Base.Maps.{find}
use serach_engine.Base.{
  fault, Fault, inl, inr, ℕ, ◌≡◌, Text, bytes, ok, refl, ◌↔◌, false, text_eq, nat_eq, List, [], ◌∷◌,
  ◌++◌, nat_beq, arith,
}
use serach_engine.Streams.{words, is_space}
use serach_engine.Web.Building.Sound.{fresh, do_all-do_query}
use serach_engine.Web.Building.Undefined.{do_all-undefined}
use serach_engine.Web.Building.{do_all}
use serach_engine.Web.Counting.{counting}
use serach_engine.Web.Preprocessor.{Preprocessor}
use serach_engine.Web.Query.{do_query, no_answer, get_relative_pages}
use serach_engine.Base.Sets.{contains}
use serach_engine.Web.Building.Answers.{some_covers}
use serach_engine.Web.Building.NoAnswer.{do_all-no_answer}
use serach_engine.Web.WebPage.{RssItem}

abbrev item : Text → RssItem
item text = record { title = bytes "t"; link = []; author = []; description = text }

abbrev count_all_once : List Text → List (Text × ℕ)
count_all_once [] = []
count_all_once (w ∷ ws) = (w, 1) ∷ count_all_once ws

abbrev cut_once : Text → List (Text × ℕ) → List (Text × ℕ)
cut_once text terms = terms ++ count_all_once (words text)

do_all-do_query_example :
    (pre : Preprocessor ℕ) × (do_all counting
        (λ s. [])
        (λ s. 0)
        nat_beq
        cut_once
        0
        (bytes "p" ∷ [])
        (item (bytes "a b") ∷ [])
        (fresh ℕ)
      ≡ ok pre)
    × ((segment : Text → List (Text × ℕ)) (sought : Text)
        → (answer : Text) × (do_query counting segment pre sought ≡ ok answer))
do_all-do_query_example =
    do_all-do_query counting (λ s. []) (λ s. 0) nat_beq cut_once 0 (bytes "p" ∷ [])
      (item (bytes "a b") ∷ []) ((λ e. cc), tt)

abbrev segment_once : Text → List (Text × ℕ)
segment_once text = cut_once text []

do_all-no_answer_example :
    (pre : Preprocessor ℕ) × (do_all counting
        (λ s. [])
        (λ s. 0)
        nat_beq
        cut_once
        0
        (bytes "p" ∷ [])
        (item (bytes "a b") ∷ [])
        (fresh ℕ)
      ≡ ok pre)
    × ((do_query counting segment_once pre (bytes "a c") ≡ ok no_answer) ↔ (
        (d : ℕ) → some_covers d ((bytes "a", 1) ∷ (bytes "c", 1) ∷ []) pre.page_lib_list ≡ false))
unfolding words is_space
do_all-no_answer_example =
    do_all-no_answer counting (λ s. []) (λ s. 0) nat_beq cut_once 0 (bytes "p" ∷ [])
      (item (bytes "a b") ∷ []) segment_once (bytes "a c") (bytes "a") 1 ((bytes "c", 1) ∷ [])
      ((λ e. cc), tt) refl

-- The words "a" and "b" have the pages 1 and 2, and 2.
abbrev two_words : List (Text × List (ℕ × ℕ))
two_words = (bytes "a", (1, 5) ∷ (2, 5) ∷ []) ∷ (bytes "b", (2, 7) ∷ []) ∷ []

two_words-IsTable : IsTable two_words
unfolding has find
two_words-IsTable = ((refl, (refl, tt)), ((refl, tt), tt))

get_relative_pages-Perm_example :
    contains 2 (get_relative_pages ((bytes "a", 1) ∷ (bytes "b", 3) ∷ []) two_words)
    ≡ contains 2 (get_relative_pages ((bytes "b", 3) ∷ (bytes "a", 1) ∷ []) two_words)
get_relative_pages-Perm_example =
    get_relative_pages-Perm 2 ((bytes "a", 1) ∷ (bytes "b", 3) ∷ [])
      ((bytes "b", 3) ∷ (bytes "a", 1) ∷ []) two_words two_words-IsTable (Perm.swap _ _ [])

do_all-IsAnswered_example :
    (pre : Preprocessor ℕ) × (do_all counting
        (λ s. [])
        (λ s. 0)
        nat_beq
        cut_once
        0
        (bytes "p" ∷ [])
        (item (bytes "a b") ∷ [])
        (fresh ℕ)
      ≡ ok pre)
    × IsAnswered counting pre segment_once
        (bytes "a b")
        (λ d. some_covers d ((bytes "a", 1) ∷ (bytes "b", 1) ∷ []) pre.page_lib_list)
unfolding words is_space
do_all-IsAnswered_example =
    do_all-IsAnswered counting (λ s. []) (λ s. 0) nat_beq cut_once 0 (bytes "p" ∷ [])
      (item (bytes "a b") ∷ []) segment_once (bytes "a b") (bytes "a") 1 ((bytes "b", 1) ∷ [])
      ((λ e. cc), tt) refl

do_all-undefined_example :
    do_all counting
      (λ s. [])
      (λ s. 0)
      nat_beq
      cut_once
      0
      (bytes "p" ∷ bytes "q" ∷ [])
      (item (bytes "a b") ∷ item [] ∷ [])
      (fresh ℕ)
    ≡ fault Fault.undefined
do_all-undefined_example =
    do_all-undefined counting (λ s. []) (λ s. 0) nat_beq cut_once 0 (bytes "p" ∷ bytes "q" ∷ [])
      (item (bytes "a b") ∷ item [] ∷ []) (omega arith) (inr (inl refl))
