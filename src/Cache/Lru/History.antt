-- ===== src/Cache/Lru/History.antt =====
-- The cache against an ideal one that forgets nothing.
use mathlib.Core.List.{foldl}
use serach_engine.Base.{
  ℕ, zero, suc, ◌<◌, ◌≡◌, refl, sym, ap, ◌∙◌, Text, ok, same_iff, List, [], ◌∷◌, none, take, ◌==◌,
  text_eq, arith, Bool-cases, inl, inr, take_of_length-le, length-take,
}
use serach_engine.Base.Maps.{find, erase, find-erase}
use serach_engine.Cache.Lru.Links.{contents, address_of}
use serach_engine.Cache.Lru.Coherence.{IsCoherent, touch}
use serach_engine.Cache.Lru.Refines.{add_record-IsRecorded}
use serach_engine.Cache.Lru.{LruCache, init, add_records}

-- Every entry recorded, the most recent first, each key once.
pub note : List (Text × Text) → Text × Text → List (Text × Text)
note h (key, result) = touch key result h

-- No key stands twice.
abbrev IsDistinct : List (Text × Text) → Type 0
IsDistinct [] = Unit {0}
IsDistinct ((k, v) ∷ l) = (find k l ≡ none) × IsDistinct l

erase_absent : (k : Text) (l : List (Text × Text)) → find k l ≡ none → erase k l ≡ l
unfolding erase find
erase_absent k [] h = refl
erase_absent k ((j, v) ∷ l) h = ground (arith, erase_absent k l)

find-take_absent :
    (k : Text) (n : ℕ) (l : List (Text × Text)) → find k l ≡ none → find k (take n l) ≡ none
unfolding find
find-take_absent k zero l h = refl
find-take_absent k (suc n) [] h = refl
find-take_absent k (suc n) ((j, v) ∷ l) h = ground (arith, find-take_absent k n l)

take-erase-take :
    (n : ℕ) (k : Text) (l : List (Text × Text))
    → IsDistinct l
    → take n (erase k (take (suc n) l)) ≡ take n (erase k l)
unfolding erase
take-erase-take zero k l d = refl
take-erase-take (suc n) k [] d = refl
take-erase-take (suc n) k ((j, v) ∷ l) d = elim (Bool-cases (j == k)) [
  | inl e ↦
      let absent : find k l ≡ none = ground (arith, same_iff j k, d.0) in
      rw
        (
          e,
          erase_absent k l absent,
          erase_absent k (take (suc n) l) (find-take_absent k (suc n) l absent),
        )
        (take_of_length-le (suc n) (take (suc n) l) (omega (arith, length-take (suc n) l)))
  | inr e ↦ rw e (ap (◌∷◌ (j, v)) (take-erase-take n k l d.1))
]

-- The first `n` entries are all that a window of `n` entries depends on.
take-touch-take :
    (n : ℕ) (k v : Text) (l : List (Text × Text))
    → IsDistinct l
    → take n (touch k v (take n l)) ≡ take n (touch k v l)
take-touch-take zero k v l d = refl
take-touch-take (suc n) k v l d = ap (◌∷◌ (k, v)) (take-erase-take n k l d)

erase-IsDistinct : (k : Text) (l : List (Text × Text)) → IsDistinct l → IsDistinct (erase k l)
unfolding erase
erase-IsDistinct k [] d = tt
erase-IsDistinct k ((j, v) ∷ l) d = ground (arith, erase-IsDistinct k l d.1, find-erase k j l)

note-IsDistinct : (h : List (Text × Text)) (e : Text × Text) → IsDistinct h → IsDistinct (note h e)
unfolding note
note-IsDistinct h (k, v) d =
    (ground (arith, find-erase k k h, same_iff k k), erase-IsDistinct k h d)

window-add_records :
    (calls : List (Text × Text)) (c : LruCache) (h : List (Text × Text))
    → IsCoherent c
    → IsDistinct h
    → contents c.result_list ≡ take c.cache_size h
    → (c' : LruCache) × (add_records c calls ≡ ok c')
      × IsCoherent c'
      × (contents c'.result_list ≡ take c.cache_size (foldl note h calls))
unfolding add_records note
window-add_records [] c h w d e = (c, refl, w, e)
window-add_records ((k, r) ∷ rest) c h w d e =
    let (c₁, ran, done) = add_record-IsRecorded c k r w in
    let e₁ : contents c₁.result_list ≡ take c₁.cache_size (note h (k, r)) =
      done.entries ∙ rw (e, done.same_size) (take-touch-take c.cache_size k r h d) in
    let (c₂, all, coherent, last) =
      window-add_records rest c₁ (note h (k, r)) done.coherent (note-IsDistinct h (k, r) d) e₁ in
    (c₂, rw (ran, add_records) all, coherent, rw (← done.same_size) last)

pub init-IsCoherent : (size : ℕ) → 0 < size → IsCoherent (init size)
unfolding init find address_of
init-IsCoherent size h = record {
  positive = h;
  linked = tt;
  bounded = omega arith;
  pending_bounded = omega arith;
  mapped = λ k. refl;
}

-- A cache of a positive size runs any sequence of AddRecord calls without undefined behaviour and
-- then holds exactly the most recently recorded entries of the whole history, most recent first,
-- each key once, as many as its size allows.
pub add_records-window :
    (size : ℕ) (calls : List (Text × Text))
    → 0 < size
    → (c : LruCache) × (add_records (init size) calls ≡ ok c)
      × IsCoherent c
      × (contents c.result_list ≡ take size (foldl note [] calls))
unfolding init
add_records-window size calls h =
    window-add_records calls (init size) [] (init-IsCoherent size h) tt
      (sym (take_of_length-le size [] (omega arith)))
