-- ===== src/Web/Building/Orders.antt =====
-- The words of a query of src/web/web_page_query.cc come out of an `unordered_map`, in an order that
-- the standard leaves open.
use mathlib.Core.List.{Perm, Permᴰ}
use mathlib.Core.Bool.{Bool-set}
use mathlib.Core.Logic.{∥∥₁_elim}
use serach_engine.Base.{
  ℕ, suc, ◌≡◌, refl, ap, ◌∙◌, sym, Text, ◌&&◌, List, [], ◌∷◌, length, arith, nat_eq,
}
use serach_engine.Base.Sets.{contains}
use serach_engine.Web.Building.Answers.{listed-has_docs}
use serach_engine.Web.InvertIndex.{docs_of}
use serach_engine.Web.Query.Pages.{has, listed, IsTable, get_relative_pages-listed}
use serach_engine.Web.Query.{get_relative_pages}

module _ {ℓ} {V : Type ℓ} (table : List (Text × List (ℕ × V))) where
  listed-Permᴰ :
      (d : ℕ) {words others : List (Text × ℕ)}
      → Permᴰ words others
      → listed d words table ≡ listed d others table
  listed-Permᴰ d Permᴰ.nil = refl
  listed-Permᴰ d (Permᴰ.cons {a} {b} {l₁} {l₂} e p) =
      ap (λ k. listed d (k ∷ l₁) table) e
      ∙ listed-has_docs d b.0 b.1 l₁ table
      ∙ ap (λ k. has d (docs_of b.0 table) && k) (listed-Permᴰ d p)
      ∙ sym (listed-has_docs d b.0 b.1 l₂ table)
  listed-Permᴰ d (Permᴰ.swap {a} {b} {a'} {b'} {l} e e') =
      ap (λ k. listed d (k ∷ b ∷ l) table) e
      ∙ ap (λ k. listed d (b' ∷ k ∷ l) table) e'
      ∙ ground (
        arith,
        listed-has_docs d b'.0 b'.1 (a' ∷ l) table,
        listed-has_docs d a'.0 a'.1 l table,
        listed-has_docs d a'.0 a'.1 (b' ∷ l) table,
        listed-has_docs d b'.0 b'.1 l table,
      )
  listed-Permᴰ d (Permᴰ.trans p q) = listed-Permᴰ d p ∙ listed-Permᴰ d q

length-Permᴰ : {words others : List (Text × ℕ)} → Permᴰ words others → length words ≡ length others
length-Permᴰ Permᴰ.nil = refl
length-Permᴰ (Permᴰ.cons e p) = ap suc (length-Permᴰ p)
length-Permᴰ (Permᴰ.swap e e') = refl
length-Permᴰ (Permᴰ.trans p q) = length-Permᴰ p ∙ length-Permᴰ q

-- For a table whose lists have each document once, GetRelativePages finds the same documents in
-- whatever order the unordered_map of the words is walked.
pub get_relative_pages-Perm {ℓ} :
    {V : Type ℓ} (d : ℕ) (words others : List (Text × ℕ)) (table : List (Text × List (ℕ × V)))
    → IsTable table
    → Perm words others
    → contains d (get_relative_pages words table) ≡ contains d (get_relative_pages others table)
get_relative_pages-Perm d words others table t perm =
    ∥∥₁_elim perm (Bool-set _ _) (λ p. at_words words others p)
  where
    at_words :
        (ws os : List (Text × ℕ))
        → Permᴰ ws os
        → contains d (get_relative_pages ws table) ≡ contains d (get_relative_pages os table)
    at_words [] [] p = refl
    at_words [] (o ∷ os) p = absurd (omega (arith, length-Permᴰ p))
    at_words (w ∷ ws) [] p = absurd (omega (arith, length-Permᴰ p))
    at_words ((w, n) ∷ ws) ((o, m) ∷ os) p =
        get_relative_pages-listed d w n ws table t
        ∙ listed-Permᴰ table d p
        ∙ sym (get_relative_pages-listed d o m os table t)
