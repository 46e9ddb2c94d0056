-- ===== src/Key/Recommander/Ranking.antt =====
-- The order of the priority queue.
use serach_engine.Base.{
  ◌≡◌, refl, Bool, true, false, List, [], ◌∷◌, All, if◌then◌else◌, arith, Bool-cases, inl, inr,
}
use serach_engine.Base.Int.{ℤ, ltb_ℤ, int_beq}
use serach_engine.Key.Recommander.{CandidateResult, cr_compare, emplace}

-- Nobody behind ranks above anyone before.
abbrev pub IsRanked : List CandidateResult → Type 0
IsRanked [] = Unit {0}
IsRanked (x ∷ q) = All (λ y. cr_compare x y ≡ false) q × IsRanked q

-- `CrCompare` on the keys alone.
below : ℤ → ℤ → ℤ → ℤ → Bool
below d f e g = if int_beq d e then ltb_ℤ f g else if ltb_ℤ d e then false else true

below_asym : (d f e g : ℤ) → below d f e g ≡ true → below e g d f ≡ false
unfolding below int_beq
below_asym d f e g h = ground arith

below_trans :
    (d f e g b h : ℤ) → below d f e g ≡ false → below e g b h ≡ false → below d f b h ≡ false
unfolding below int_beq
below_trans d f e g b h p q = ground arith

cr_compare-below : (x y : CandidateResult) → cr_compare x y ≡ below x.dist x.freq y.dist y.freq
unfolding cr_compare below
cr_compare-below x y = refl

cr_compare_asym : (x y : CandidateResult) → cr_compare x y ≡ true → cr_compare y x ≡ false
cr_compare_asym x y h =
    ground
      (arith, cr_compare-below x y, cr_compare-below y x, below_asym x.dist x.freq y.dist y.freq)

cr_compare_trans :
    (x y z : CandidateResult)
    → cr_compare x y ≡ false
    → cr_compare y z ≡ false
    → cr_compare x z ≡ false
cr_compare_trans x y z p q = ground (
  arith,
  cr_compare-below x y,
  cr_compare-below y z,
  cr_compare-below x z,
  below_trans x.dist x.freq y.dist y.freq z.dist z.freq,
)

ranks_over :
    (c x : CandidateResult) (q : List CandidateResult)
    → cr_compare c x ≡ false
    → All (λ y. cr_compare x y ≡ false) q
    → All (λ y. cr_compare c y ≡ false) q
ranks_over c x [] h a = tt
ranks_over c x (y ∷ q) h a = (cr_compare_trans c x y h a.0, ranks_over c x q h a.1)

emplace-All :
    (P : CandidateResult → Type 0) (c : CandidateResult) (q : List CandidateResult)
    → P c
    → All P q
    → All P (emplace c q)
unfolding emplace
emplace-All P c [] h a = (h, tt)
emplace-All P c (x ∷ q) h a = elim (Bool-cases (cr_compare c x)) [
  | inl e ↦ rw (e, emplace) (a.0, emplace-All P c q h a.1)
  | inr e ↦ rw (e, emplace) (h, (a.0, a.1))
]

-- A new candidate leaves a ranked queue ranked: a smaller distance first, and of equal distances a
-- greater frequency.
pub emplace-IsRanked :
    (c : CandidateResult) (q : List CandidateResult) → IsRanked q → IsRanked (emplace c q)
unfolding emplace
emplace-IsRanked c [] h = (tt, tt)
emplace-IsRanked c (x ∷ q) h = elim (Bool-cases (cr_compare c x)) [
  | inl e ↦
      rw (e, emplace)
        (
          emplace-All (λ y. cr_compare x y ≡ false) c q (cr_compare_asym c x e) h.0,
          emplace-IsRanked c q h.1,
        )
  | inr e ↦ rw (e, emplace) ((e, ranks_over c x q e h.0), (h.0, h.1))
]
