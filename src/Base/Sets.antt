-- ===== src/Base/Sets.antt =====
-- `std::set` as a list without repetition, and Boolean membership in a list.
use serach_engine.Base.Keys.{Eq, ◌==◌}
use serach_engine.Base.Tests.{if◌then◌else◌}
use mathlib.Core.Bool.{Bool, false, ◌||◌}
use mathlib.Core.List.{List, [], ◌∷◌}
use mathlib.Core.Path.{◌≡◌, refl}
use native.Mathlib.Omega.{arith}

module _ {ℓ} {A : Type ℓ} ⦃e : Eq A⦄ where
  unfoldable pub contains : A → List A → Bool
  contains a [] = false
  contains a (x ∷ xs) = x == a || contains a xs

  unfoldable pub place : (A → A → Bool) → A → List A → List A
  place before a [] = a ∷ []
  place before a (x ∷ xs) = if before a x then a ∷ x ∷ xs else x ∷ place before a xs

  -- `s.insert(a)`.
  unfoldable pub add : (A → A → Bool) → A → List A → List A
  unfolding place
  add before a s = if contains a s then s else place before a s

  contains-place :
      (before : A → A → Bool) (a b : A) (s : List A)
      → contains b (place before a s) ≡ (a == b || contains b s)
  unfolding contains place
  contains-place before a b [] = refl
  contains-place before a b (x ∷ xs) = ground (arith, contains-place before a b xs)

  pub contains-add :
      (before : A → A → Bool) (a b : A) (s : List A)
      → contains b (add before a s) ≡ (a == b || contains b s)
  unfolding add
  contains-add before a b s = ground (arith, e.beq_iff a b, contains-place before a b s)
