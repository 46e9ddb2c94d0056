-- ===== src/Cache/Lru/Links.antt =====
-- The node list of `LruCache` and the addresses in it.
use serach_engine.Base.{
  ℕ, suc, ◌+◌, ◌≤◌, ◌<◌, ◌≡◌, refl, ap, inl, inr, Text, same_iff, List, [], ◌∷◌, map, Option, false,
  none, some, length, last?, drop_last, if◌then◌else◌, ◌==◌, text_eq, nat_eq, arith, Bool-cases,
}
use serach_engine.Base.Maps.{find, erase}

abbrev pub Nodes : Type 0
Nodes = List (ℕ × (Text × Text))

-- The entries, most recent first, with the addresses forgotten.
abbrev pub contents : Nodes → List (Text × Text)
contents = map (λ n. n.1)

-- The address of the node that holds a key.
unfoldable pub address_of : Text → Nodes → Option ℕ
address_of k [] = none
address_of k ((a, (j, v)) ∷ l) = if j == k then some a else address_of k l

-- No key and no address stands twice, and the addresses are those given out.
abbrev pub IsLinked : ℕ → Nodes → Type 0
IsLinked next [] = Unit {0}
IsLinked next ((a, (k, v)) ∷ l) =
    (a < next) × (find a l ≡ none) × (address_of k l ≡ none) × IsLinked next l

pub IsLinked-mono : (m n : ℕ) (l : Nodes) → m ≤ n → IsLinked m l → IsLinked n l
IsLinked-mono m n [] h p = tt
IsLinked-mono m n ((a, (k, v)) ∷ l) h p = (omega arith, p.1, p.2, IsLinked-mono m n l h p.3)

pub find_above : (n a : ℕ) (l : Nodes) → n ≤ a → IsLinked n l → find a l ≡ none
unfolding find
find_above n a [] h p = refl
find_above n a ((b, (k, v)) ∷ l) h p = ground (arith, find_above n a l h p.3)

pub node_of_address :
    (n a : ℕ) (k : Text) (l : Nodes)
    → IsLinked n l
    → address_of k l ≡ some a
    → (v : Text) × (find a l ≡ some (k, v))
unfolding find address_of
node_of_address n a k [] p h = absurd (ground arith)
node_of_address n a k ((b, (j, w)) ∷ l) p h = elim (Bool-cases (j == k)) [
  | inl e ↦ (w, ground (arith, same_iff j k))
  | inr e ↦ let (v, hit) = node_of_address n a k l p.3 (ground arith) in (v, ground (arith, hit))
]

pub address_of-erase_absent :
    (a : ℕ) (j : Text) (l : Nodes) → address_of j l ≡ none → address_of j (erase a l) ≡ none
unfolding erase address_of
address_of-erase_absent a j [] h = refl
address_of-erase_absent a j ((b, (i, w)) ∷ l) h = ground (arith, address_of-erase_absent a j l)

pub erase_absent : (a : ℕ) (l : Nodes) → find a l ≡ none → erase a l ≡ l
unfolding erase find
erase_absent a [] h = refl
erase_absent a ((b, (i, w)) ∷ l) h = ground (arith, erase_absent a l)

pub erase_absent_key :
    (k : Text) (l : Nodes) → address_of k l ≡ none → erase k (contents l) ≡ contents l
unfolding erase address_of
erase_absent_key k [] h = refl
erase_absent_key k ((b, (i, w)) ∷ l) h = ground (arith, erase_absent_key k l)

pub contents-erase :
    (n a : ℕ) (k : Text) (l : Nodes)
    → IsLinked n l
    → address_of k l ≡ some a
    → contents (erase a l) ≡ erase k (contents l)
unfolding erase address_of
contents-erase n a k [] p h = absurd (ground arith)
contents-erase n a k ((b, (i, w)) ∷ l) p h = elim (Bool-cases (i == k)) [
  | inl e ↦ ground (arith, same_iff i k, erase_absent a l, erase_absent_key k l)
  | inr e ↦
      let rest : address_of k l ≡ some a = ground arith in
      let (v, hit) = node_of_address n a k l p.3 rest in
      ground (arith, hit, contents-erase n a k l p.3 rest)
]

find-erase_absent : (a b : ℕ) (l : Nodes) → find b l ≡ none → find b (erase a l) ≡ none
unfolding erase find
find-erase_absent a b [] h = refl
find-erase_absent a b ((c, (i, w)) ∷ l) h = ground (arith, find-erase_absent a b l)

pub erase-IsLinked : (n a : ℕ) (l : Nodes) → IsLinked n l → IsLinked n (erase a l)
unfolding erase
erase-IsLinked n a [] p = tt
erase-IsLinked n a ((b, (i, w)) ∷ l) p = ground (
  arith,
  erase-IsLinked n a l p.3,
  find-erase_absent a b l p.1,
  address_of-erase_absent a i l p.2,
)

-- Without the node of a key, the other keys are where they were.
pub address_of-erase :
    (n a : ℕ) (k j : Text) (l : Nodes)
    → IsLinked n l
    → address_of k l ≡ some a
    → address_of j (erase a l) ≡ (if k == j then none else address_of j l)
unfolding erase address_of
address_of-erase n a k j [] p h = absurd (ground arith)
address_of-erase n a k j ((b, (i, w)) ∷ l) p h = elim (Bool-cases (i == k)) [
  | inl e ↦ ground (arith, same_iff i k, same_iff i j, same_iff k j, erase_absent a l)
  | inr e ↦
      let rest : address_of k l ≡ some a = ground arith in
      let (v, hit) = node_of_address n a k l p.3 rest in
      ground
        (arith, same_iff i k, same_iff i j, same_iff k j, hit, address_of-erase n a k j l p.3 rest)
]

pub length-erase :
    (n a : ℕ) (k : Text) (l : Nodes)
    → IsLinked n l
    → address_of k l ≡ some a
    → length (erase a l) + 1 ≡ length l
unfolding erase address_of
length-erase n a k [] p h = absurd (ground arith)
length-erase n a k ((b, (i, w)) ∷ l) p h = elim (Bool-cases (i == k)) [
  | inl e ↦ ground (arith, erase_absent a l)
  | inr e ↦
      let rest : address_of k l ≡ some a = ground arith in
      let (v, hit) = node_of_address n a k l p.3 rest in
      ground (arith, hit, length-erase n a k l p.3 rest)
]

address_of-drop_last_absent :
    (j : Text) (l : Nodes) → address_of j l ≡ none → address_of j (drop_last l) ≡ none
unfolding address_of
address_of-drop_last_absent j [] h = refl
address_of-drop_last_absent j ((a, (i, w)) ∷ []) h = refl
address_of-drop_last_absent j ((a, (i, w)) ∷ m ∷ l) h =
    ground (arith, address_of-drop_last_absent j (m ∷ l))

find-drop_last_absent : (a : ℕ) (l : Nodes) → find a l ≡ none → find a (drop_last l) ≡ none
unfolding find
find-drop_last_absent a [] h = refl
find-drop_last_absent a ((b, (i, w)) ∷ []) h = refl
find-drop_last_absent a ((b, (i, w)) ∷ m ∷ l) h = ground (arith, find-drop_last_absent a (m ∷ l))

pub drop_last-IsLinked : (n : ℕ) (l : Nodes) → IsLinked n l → IsLinked n (drop_last l)
drop_last-IsLinked n [] p = tt
drop_last-IsLinked n ((b, (i, w)) ∷ []) p = tt
drop_last-IsLinked n ((b, (i, w)) ∷ m ∷ l) p = (
  p.0,
  find-drop_last_absent b (m ∷ l) p.1,
  address_of-drop_last_absent i (m ∷ l) p.2,
  drop_last-IsLinked n (m ∷ l) p.3,
)

absent_ne_last :
    (k : Text) (l : Nodes) {a : ℕ} {v j : Text}
    → last? l ≡ some (a, (j, v))
    → address_of k l ≡ none
    → (k == j) ≡ false
unfolding address_of
absent_ne_last k [] h q = absurd (ground arith)
absent_ne_last k ((b, (i, w)) ∷ []) {j = j} h q = ground (arith, same_iff i k, same_iff k j)
absent_ne_last k ((b, (i, w)) ∷ m ∷ l) h q = absent_ne_last k (m ∷ l) h (ground arith)

-- Without the last node, the keys but the last are where they were.
pub address_of-drop_last :
    (n : ℕ) (j : Text) (l : Nodes) {a : ℕ} {k v : Text}
    → IsLinked n l
    → last? l ≡ some (a, (k, v))
    → address_of j (drop_last l) ≡ (if k == j then none else address_of j l)
unfolding address_of
address_of-drop_last n j [] p h = absurd (ground arith)
address_of-drop_last n j ((b, (i, w)) ∷ []) {k = k} p h = ground (arith, same_iff i j, same_iff k j)
address_of-drop_last n j ((b, (i, w)) ∷ m ∷ l) {k = k} p h = ground (
  arith,
  same_iff i j,
  same_iff k j,
  same_iff i k,
  absent_ne_last i (m ∷ l) h p.2,
  address_of-drop_last n j (m ∷ l) p.3 h,
)

pub contents-drop_last : (l : Nodes) → contents (drop_last l) ≡ drop_last (contents l)
contents-drop_last [] = refl
contents-drop_last (m ∷ []) = refl
contents-drop_last (m ∷ o ∷ l) = ap (◌∷◌ m.1) (contents-drop_last (o ∷ l))

pub last_of_length : (l : Nodes) → 0 < length l → (n : ℕ × (Text × Text)) × (last? l ≡ some n)
last_of_length [] h = absurd (omega arith)
last_of_length (m ∷ []) h = (m, refl)
last_of_length (m ∷ o ∷ l) h = last_of_length (o ∷ l) (omega arith)

pub length-contents : (l : Nodes) → length (contents l) ≡ length l
length-contents [] = refl
length-contents (m ∷ l) = ap suc (length-contents l)
