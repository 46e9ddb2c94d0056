-- ===== src/Base/Maps.antt =====
-- `std::map` and `std::unordered_map` as association lists with distinct keys. `before` is the
-- order in which a new key is placed: `operator<` for `std::map`, nothing for `unordered_map`.
use serach_engine.Base.Keys.{Eq, ◌==◌}
use serach_engine.Base.Tests.{if◌then◌else◌, Option-cases}
use Prim.Native.Nat.{ℕ, suc}
use mathlib.Core.Bool.{Bool, false}
use mathlib.Core.List.{List, [], ◌∷◌}
use mathlib.Core.Logic.{inl, inr}
use mathlib.Core.Option.{Option, none, some}
use mathlib.Core.Path.{◌≡◌, refl}
use native.Mathlib.Omega.{arith}

-- No order between keys: where a hashed container puts a new key is not specified.
abbrev pub unordered {ℓ} : {K : Type ℓ} → K → K → Bool
unordered a b = false

-- The first of two options that is there.
unfoldable pub or_else {ℓ} : {A : Type ℓ} → Option A → Option A → Option A
or_else none p = p
or_else (some a) p = some a

module _ {ℓ κ} {K : Type ℓ} {V : Type κ} ⦃e : Eq K⦄ where
  unfoldable pub find : K → List (K × V) → Option V
  find k [] = none
  find k ((j, v) ∷ m) = if j == k then some v else find k m

  -- Replaces the value of a key that is there.
  unfoldable pub assign : K → V → List (K × V) → List (K × V)
  assign k v [] = []
  assign k v ((j, w) ∷ m) = if j == k then (j, v) ∷ m else (j, w) ∷ assign k v m

  -- Places a new key.
  unfoldable pub place : (K → K → Bool) → K → V → List (K × V) → List (K × V)
  place before k v [] = (k, v) ∷ []
  place before k v ((j, w) ∷ m) =
      if before k j then (k, v) ∷ (j, w) ∷ m else (j, w) ∷ place before k v m

  -- `m[k] = v`.
  unfoldable pub put : (K → K → Bool) → K → V → List (K × V) → List (K × V)
  put before k v m = elim (find k m) [ some w ↦ assign k v m | none ↦ place before k v m ]

  -- `m.insert({k, v})` and `m.emplace(k, v)`: a key that is there keeps its value.
  unfoldable pub insert : (K → K → Bool) → K → V → List (K × V) → List (K × V)
  insert before k v m = elim (find k m) [ some w ↦ m | none ↦ place before k v m ]

  -- `m.erase(k)`.
  unfoldable pub erase : K → List (K × V) → List (K × V)
  erase k [] = []
  erase k ((j, w) ∷ m) = if j == k then erase k m else (j, w) ∷ erase k m

  pub find-assign :
      (k j : K) (v w : V) (m : List (K × V))
      → find k m ≡ some w
      → find j (assign k v m) ≡ (if k == j then some v else find j m)
  unfolding find assign
  find-assign k j v w [] h = cc
  find-assign k j v w ((i, u) ∷ m) h =
      ground (arith, e.beq_iff i k, e.beq_iff i j, e.beq_iff k j, find-assign k j v w m)

  pub find-place :
      (before : K → K → Bool) (k j : K) (v : V) (m : List (K × V))
      → find k m ≡ none
      → find j (place before k v m) ≡ (if k == j then some v else find j m)
  unfolding find place
  find-place before k j v [] h = refl
  find-place before k j v ((i, u) ∷ m) h =
      ground (arith, e.beq_iff i k, e.beq_iff i j, e.beq_iff k j, find-place before k j v m)

  pub find-put :
      (before : K → K → Bool) (k j : K) (v : V) (m : List (K × V))
      → find j (put before k v m) ≡ (if k == j then some v else find j m)
  unfolding put
  find-put before k j v m = elim (Option-cases (find k m)) [
    | inl new ↦ rw (new, put) (find-place before k j v m new)
    | inr (w, old) ↦ rw (old, put) (find-assign k j v w m old)
  ]

  pub find-insert :
      (before : K → K → Bool) (k j : K) (v : V) (m : List (K × V))
      → find k m ≡ none
      → find j (insert before k v m) ≡ (if k == j then some v else find j m)
  unfolding insert
  find-insert before k j v m h = ground (arith, find-place before k j v m)

  -- An insertion is seen only where no entry was.
  pub find-insert_or :
      (before : K → K → Bool) (k j : K) (v : V) (m : List (K × V))
      → find j (insert before k v m) ≡ or_else (find j m) (if k == j then some v else none)
  unfolding insert or_else
  find-insert_or before k j v m = elim (Option-cases (find k m)) [
    | inl new ↦ rw (new, insert, find-place before k j v m new) (miss (find j m) refl new)
    | inr (w, old) ↦ rw (old, insert) (hit (find j m) refl old)
  ]
    where
      miss :
          (o : Option V)
          → find j m ≡ o
          → find k m ≡ none
          → (if k == j then some v else o) ≡ or_else o (if k == j then some v else none)
      miss none q new = refl
      miss (some w) q new = ground (arith, e.beq_iff k j, q)

      hit :
          (o : Option V) {w : V}
          → find j m ≡ o
          → find k m ≡ some w
          → o ≡ or_else o (if k == j then some v else none)
      hit none q old = ground (arith, e.beq_iff k j, q)
      hit (some u) q old = refl

  pub find-erase :
      (k j : K) (m : List (K × V)) → find j (erase k m) ≡ (if k == j then none else find j m)
  unfolding find erase
  find-erase k j [] = ground arith
  find-erase k j ((i, u) ∷ m) =
      ground (arith, e.beq_iff i k, e.beq_iff i j, e.beq_iff k j, find-erase k j m)

module _ {ℓ} {K : Type ℓ} ⦃e : Eq K⦄ where
  -- The value of `m[k]`: a missing key gives 0.
  unfoldable pub count_of : K → List (K × ℕ) → ℕ
  count_of k m = elim (find k m) [ none ↦ 0 | some n ↦ n ]

  -- `++m[k]` of an `unordered_map`.
  unfoldable pub bump : K → List (K × ℕ) → List (K × ℕ)
  unfolding count_of
  bump k m = put unordered k (suc (count_of k m)) m

  pub count_of-bump :
      (k j : K) (m : List (K × ℕ))
      → count_of j (bump k m) ≡ (if k == j then suc (count_of j m) else count_of j m)
  unfolding count_of bump
  count_of-bump k j m = ground (arith, e.beq_iff k j, find-put unordered k j (suc (count_of k m)) m)

  pub find-bump :
      (k j : K) (m : List (K × ℕ))
      → find j (bump k m) ≡ (if k == j then some (suc (count_of k m)) else find j m)
  unfolding bump
  find-bump k j m = find-put unordered k j (suc (count_of k m)) m
