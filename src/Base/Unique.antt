-- ===== src/Base/Unique.antt =====
-- Maps, as lists, in which no key stands twice.
use mathlib.Core.Bool.{Bool}
use mathlib.Core.List.{List, [], ◌∷◌}
use mathlib.Core.Logic.{inl, inr}
use mathlib.Core.Option.{none}
use mathlib.Core.Path.{◌≡◌, refl, ◌∙◌}
use native.Mathlib.Omega.{arith}
use serach_engine.Base.Keys.{Eq, ◌==◌}
use serach_engine.Base.Maps.{find, place, assign, put, insert, erase, find-place, find-erase}
use serach_engine.Base.Tests.{Option-cases, Bool-cases}

module _ {κ ℓ} {K : Type κ} {V : Type ℓ} ⦃e : Eq K⦄ where
  abbrev pub IsUnique : List (K × V) → Type (κ ⊔ ℓ)
  IsUnique [] = Unit
  IsUnique ((k, v) ∷ m) = (find k m ≡ none) × IsUnique m

  pub place-IsUnique :
      (before : K → K → Bool) (k : K) (v : V) (m : List (K × V))
      → find k m ≡ none
      → IsUnique m
      → IsUnique (place before k v m)
  unfolding place find
  place-IsUnique before k v [] h u = (refl, tt)
  place-IsUnique before k v ((j, w) ∷ m) h u = elim (Bool-cases (before k j)) [
    | inl first ↦ rw (first, place) (h, u)
    | inr later ↦
        let rest : find k m ≡ none = ground (arith, h) in
        rw (later, place)
          (
            find-place before k j v m rest ∙ ground (arith, h, u.0, e.beq_iff j k, e.beq_iff k j),
            place-IsUnique before k v m rest u.1,
          )
  ]

  find-assign_absent :
      (k j : K) (v : V) (m : List (K × V)) → find j m ≡ none → find j (assign k v m) ≡ none
  unfolding assign find
  find-assign_absent k j v [] h = refl
  find-assign_absent k j v ((i, w) ∷ m) h = ground (arith, h, find-assign_absent k j v m)

  pub assign-IsUnique : (k : K) (v : V) (m : List (K × V)) → IsUnique m → IsUnique (assign k v m)
  unfolding assign find
  assign-IsUnique k v [] u = tt
  assign-IsUnique k v ((j, w) ∷ m) u = elim (Bool-cases (j == k)) [
    | inl here ↦ rw (here, assign) u
    | inr other ↦ rw (other, assign) (find-assign_absent k j v m u.0, assign-IsUnique k v m u.1)
  ]

  pub erase-IsUnique : (k : K) (m : List (K × V)) → IsUnique m → IsUnique (erase k m)
  unfolding erase find
  erase-IsUnique k [] u = tt
  erase-IsUnique k ((j, w) ∷ m) u = elim (Bool-cases (j == k)) [
    | inl here ↦ rw (here, erase) (erase-IsUnique k m u.1)
    | inr other ↦ rw (other, erase) (find-erase k j m ∙ ground (arith, u.0), erase-IsUnique k m u.1)
  ]

  pub put-IsUnique :
      (before : K → K → Bool) (k : K) (v : V) (m : List (K × V))
      → IsUnique m
      → IsUnique (put before k v m)
  unfolding put
  put-IsUnique before k v m u = elim (Option-cases (find k m)) [
    | inl new ↦ rw (new, put) (place-IsUnique before k v m new u)
    | inr (w, old) ↦ rw (old, put) (assign-IsUnique k v m u)
  ]

  pub insert-IsUnique :
      (before : K → K → Bool) (k : K) (v : V) (m : List (K × V))
      → IsUnique m
      → IsUnique (insert before k v m)
  unfolding insert
  insert-IsUnique before k v m u = elim (Option-cases (find k m)) [
    | inl new ↦ rw (new, insert) (place-IsUnique before k v m new u)
    | inr (w, old) ↦ rw (old, insert) u
  ]
