-- ===== src/Key/Dictionary/Query.antt =====
-- What `DoQuery` counts.
use serach_engine.Base.{
  ℕ, zero, suc, ◌+◌, ◌≡◌, refl, sym, ap, fun_ext, ◌∙◌, inl, inr, Text, Bool, true, false, List, [],
  ◌∷◌, Option, none, some, if◌then◌else◌, ◌==◌, text_eq, text_before, same_iff, nat_eq, arith,
  Bool-cases, Option-cases,
}
use serach_engine.Base.Int.{ℤ, pos, int_eq, int_beq_iff}
use serach_engine.Base.Maps.{find, bump, count_of, find-bump, find-put}
use serach_engine.Base.Sets.{contains}
use serach_engine.Key.Dictionary.Chars.{char_len, char_set}
use serach_engine.Key.Dictionary.{
  Dictionary, Index, lines_of, touch_key, bump_all, count_char, count_lines, do_query,
}

-- No line stands twice in the set of a character.
abbrev pub IsOnce : List ℤ → Type 0
IsOnce [] = Unit {0}
IsOnce (x ∷ xs) = (contains x xs ≡ false) × IsOnce xs

abbrev pub IsIndex : Index → Type 0
IsIndex index = (ch : Text) → IsOnce (lines_of ch index)

-- Whether the index of a character's own language lists a line under it.
unfoldable pub lists : Dictionary → ℤ → Text → Bool
lists d n ch =
    if char_len ch == pos 3
    then contains n (lines_of ch d.index_zh)
    else if char_len ch == pos 1
    then contains n (lines_of ch d.index_en)
    else false

-- How many elements pass a test.
unfoldable pub number {ℓ} : {A : Type ℓ} → (A → Bool) → List A → ℕ
number p [] = 0
number p (c ∷ cs) = if p c then suc (number p cs) else number p cs

-- A count as it stands in the map: a line that is never counted has no entry.
unfoldable pub as_entry : ℕ → Option ℕ
as_entry zero = none
as_entry (suc n) = some (suc n)

bit : Bool → ℕ
bit true = 1
bit false = 0

count_of-as_entry : (n : ℤ) (c : ℕ) (m : List (ℤ × ℕ)) → find n m ≡ as_entry c → count_of n m ≡ c
unfolding count_of as_entry
count_of-as_entry n zero m h = rw (h, count_of)
count_of-as_entry n (suc c) m h = rw (h, count_of)

find-bump_all_absent :
    (n : ℤ) (xs : List ℤ) (m : List (ℤ × ℕ))
    → contains n xs ≡ false
    → find n (bump_all xs m) ≡ find n m
unfolding bump_all contains
find-bump_all_absent n [] m h = refl
find-bump_all_absent n (x ∷ xs) m h =
    find-bump_all_absent n xs (bump x m) (ground arith) ∙ ground (arith, find-bump x n m)

find-bump_all :
    (n : ℤ) (c : ℕ) (xs : List ℤ) (m : List (ℤ × ℕ))
    → IsOnce xs
    → find n m ≡ as_entry c
    → find n (bump_all xs m) ≡ as_entry (bit (contains n xs) + c)
unfolding bump_all contains bit as_entry
find-bump_all n c [] m s h = let e : 0 + c ≡ c = omega arith in h ∙ ap as_entry (sym e)
find-bump_all n c (x ∷ xs) m s h = elim (Bool-cases (x == n)) [
  | inl e ↦
      let same : x ≡ n = (int_beq_iff x n).0 e in
      let alone : contains n xs ≡ false = ap (λ k. contains k xs) (sym same) ∙ s.0 in
      let one : find n (bump x m) ≡ some (suc c) =
        ground (arith, find-bump x n m, ap (λ k. count_of k m) same, count_of-as_entry n c m h) in
      let sum : suc c ≡ 1 + c = omega arith in
      find-bump_all_absent n xs (bump x m) alone ∙ one ∙ rw e (ap as_entry sum)
  | inr e ↦
      let still : find n (bump x m) ≡ as_entry c = ground (arith, find-bump x n m, h) in
      find-bump_all n c xs (bump x m) s.1 still ∙ rw e refl
]

-- Adding the empty set of a missing key changes no set.
lines_of-touch_key :
    (ch k : Text) (index : Index) → lines_of k (touch_key ch index) ≡ lines_of k index
unfolding lines_of touch_key
lines_of-touch_key ch k index = elim (Option-cases (find ch index)) [
  | inl new ↦ ground (arith, new, same_iff ch k, find-put text_before ch k [] index)
  | inr (s, old) ↦ rw (old, touch_key)
]

touch_key-IsIndex : (ch : Text) (index : Index) → IsIndex index → IsIndex (touch_key ch index)
touch_key-IsIndex ch index h k = rw (lines_of-touch_key ch k index) (h k)

-- The sets of both indexes hold no line twice, as a `std::set` does.
pub record IsIndexed (d : Dictionary) : Type 0 where
  pub en : IsIndex d.index_en
  pub zh : IsIndex d.index_zh

-- The dictionary with one missing character added to an index lists what it listed before.
lists-touch_zh :
    (d : Dictionary) (ch k : Text) (n : ℤ)
    → lists (record d { index_zh = touch_key ch d.index_zh }) n k ≡ lists d n k
unfolding lists
lists-touch_zh d ch k n = rw (lines_of-touch_key ch k d.index_zh)

lists-touch_en :
    (d : Dictionary) (ch k : Text) (n : ℤ)
    → lists (record d { index_en = touch_key ch d.index_en }) n k ≡ lists d n k
unfolding lists
lists-touch_en d ch k n = rw (lines_of-touch_key ch k d.index_en)

-- What one round of the loop does.
record IsCounted (ch : Text) (d : Dictionary) (m : List (ℤ × ℕ)) (n : ℤ) (c : ℕ) : Type 0 where
  indexed : IsIndexed (count_char ch d m).0
  same_lists : (k : Text) → lists (count_char ch d m).0 n k ≡ lists d n k
  counted : find n m ≡ as_entry c → find n (count_char ch d m).1 ≡ as_entry (bit (lists d n ch) + c)

count_char-IsCounted :
    (ch : Text) (d : Dictionary) (m : List (ℤ × ℕ)) (n : ℤ) (c : ℕ)
    → IsIndexed d
    → IsCounted ch d m n c
unfolding count_char lists bit
count_char-IsCounted ch d m n c v = elim (Bool-cases (char_len ch == pos 3)) [
  | inl zh ↦ record {
    indexed = rw (zh, count_char) (record { en = v.en; zh = touch_key-IsIndex ch d.index_zh v.zh });
    same_lists = λ k. rw (zh, count_char) (lists-touch_zh d ch k n);
    counted = λ h. rw (zh, count_char) (find-bump_all n c (lines_of ch d.index_zh) m (v.zh ch) h);
  }
  | inr not_zh ↦ elim (Bool-cases (char_len ch == pos 1)) [
    | inl en ↦ record {
      indexed =
          rw (not_zh, en, count_char)
            (record { en = touch_key-IsIndex ch d.index_en v.en; zh = v.zh });
      same_lists = λ k. rw (not_zh, en, count_char) (lists-touch_en d ch k n);
      counted = λ h.
          rw (not_zh, en, count_char) (find-bump_all n c (lines_of ch d.index_en) m (v.en ch) h);
    }
    | inr other ↦ record {
      indexed = rw (not_zh, other, count_char) v;
      same_lists = λ k. rw (not_zh, other, count_char) refl;
      counted = λ h.
          rw (not_zh, other, count_char)
            (let e : 0 + c ≡ c = omega arith in h ∙ ap as_entry (sym e));
    }
  ]
]

bit-number :
    (p : Text → Bool) (ch : Text) (chs : List Text) (c : ℕ)
    → number p chs + (bit (p ch) + c) ≡ number p (ch ∷ chs) + c
unfolding number bit
bit-number p ch chs c = ground arith

count_lines-number :
    (chs : List Text) (d : Dictionary) (m : List (ℤ × ℕ)) (n : ℤ) (c : ℕ)
    → IsIndexed d
    → find n m ≡ as_entry c
    → find n (count_lines chs d m).1 ≡ as_entry (number (lists d n) chs + c)
unfolding count_lines number
count_lines-number [] d m n c v h = let e : 0 + c ≡ c = omega arith in h ∙ ap as_entry (sym e)
count_lines-number (ch ∷ chs) d m n c v h =
    let step = count_char-IsCounted ch d m n c v in
    let d' = (count_char ch d m).0 in
    count_lines-number chs d' (count_char ch d m).1 n (bit (lists d n ch) + c) step.indexed
      (step.counted h)
    ∙ ap (λ p. as_entry (number p chs + (bit (lists d n ch) + c))) (fun_ext step.same_lists)
    ∙ ap as_entry (bit-number (lists d n) ch chs c)

pub do_query-number :
    (d : Dictionary) (key : Text) (n : ℤ)
    → IsIndexed d
    → find n (do_query d key).1 ≡ as_entry (number (lists d n) (char_set key))
unfolding do_query find as_entry
do_query-number d key n v =
    let e : number (lists d n) (char_set key) + 0 ≡ number (lists d n) (char_set key) =
      omega arith in
    count_lines-number (char_set key) d [] n 0 v refl ∙ ap as_entry e

count_lines-lists :
    (chs : List Text) (d : Dictionary) (m : List (ℤ × ℕ)) (n : ℤ) (k : Text)
    → IsIndexed d
    → IsIndexed (count_lines chs d m).0 × (lists (count_lines chs d m).0 n k ≡ lists d n k)
unfolding count_lines
count_lines-lists [] d m n k v = (v, refl)
count_lines-lists (ch ∷ chs) d m n k v =
    let step = count_char-IsCounted ch d m n 0 v in
    let (indexed, same) =
      count_lines-lists chs (count_char ch d m).0 (count_char ch d m).1 n k step.indexed in
    (indexed, same ∙ step.same_lists k)

-- When the index sets hold no line twice, DoQuery may add empty sets to the indexes, but they stay
-- sets without repetition and list what they listed.
pub do_query-lists :
    (d : Dictionary) (key : Text) (n : ℤ) (k : Text)
    → IsIndexed d
    → IsIndexed (do_query d key).0 × (lists (do_query d key).0 n k ≡ lists d n k)
unfolding do_query
do_query-lists d key n k v = count_lines-lists (char_set key) d [] n k v
