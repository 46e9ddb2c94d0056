-- ===== src/Key/Recommander/Shared.antt =====
-- The characters that a key of `Query` of src/key/key_recommander.cc shares with a line.
use serach_engine.Base.{
  ℕ, zero, suc, ◌⊎◌, ◌≤◌, ◌≡◌, refl, sym, ap, ◌∙◌, Text, Bool, true, false, Fault, ok, fault, List,
  [], ◌∷◌, none, some, length, get_elem?, if◌then◌else◌, ◌==◌, text_eq, nat_eq, arith, Bool-cases,
  Option-cases, inl, inr, same_iff,
}
use serach_engine.Base.Int.{ℤ, pos, int_eq, int_beq, int_beq_iff}
use serach_engine.Base.Maps.{find}
use serach_engine.Base.Sets.{contains}
use serach_engine.Key.Dictionary.Query.{IsIndexed, lists, number, as_entry, do_query-number}
use serach_engine.Key.Dictionary.{
  Dictionary, Entries, char_len, char_set, do_query, count_lines, count_char,
}
use serach_engine.Key.Recommander.Distance.{minimum_edit_dist-undefined}
use serach_engine.Key.Recommander.{CandidateResult, entry_at, minimum_edit_dist, query_zh, query_en}

-- The dictionary that `Query` takes for a key whose first character has that size.
unfoldable pub dict_for : ℤ → Dictionary → Entries
dict_for size d = if int_beq size (pos 3) then d.dict_zh else d.dict_en

-- A line that an index lists under a character of n bytes has a word, which begins with such a
-- character and is not shorter than it.
abbrev pub IsPlain : ℕ → Dictionary → Type 0
IsPlain n d =
    (line : ℤ) (ch : Text)
    → char_len ch ≡ pos n
    → lists d line ch ≡ true
    → (i : ℕ) × (word : Text) × (freq : ℤ) × (line ≡ pos i)
      × (get_elem? (dict_for (pos n) d) i ≡ some (word, freq))
      × (char_len word ≡ pos n)
      × (n ≤ length word)

-- Whether a line is listed under a character of the key.
abbrev pub IsShared : Dictionary → Text → ℤ → Text → Type 0
IsShared d key line ch = (contains ch (char_set key) ≡ true) × (lists d line ch ≡ true)

pub number-some :
    (p : Text → Bool) (l : List Text) (c : ℕ)
    → number p l ≡ suc c
    → (x : Text) × (contains x l ≡ true) × (p x ≡ true)
unfolding number contains
number-some p [] c h = cc
number-some p (x ∷ l) c h = elim (Bool-cases (p x)) [
  | inl yes_x ↦ (x, ground (arith, (same_iff x x).1 refl), yes_x)
  | inr no_x ↦
      let (y, there, yes_y) = number-some p l c (rw (no_x) at h) in (y, ground arith, yes_y)
]

pub number-none :
    (p : Text → Bool) (l : List Text) (x : Text)
    → number p l ≡ 0
    → contains x l ≡ true
    → p x ≡ false
unfolding number contains
number-none p [] x h i = cc
number-none p (y ∷ l) x h i = elim (Bool-cases (p y)) [
  | inl yes_y ↦ let one : suc (number p l) ≡ 0 = rw (yes_y) at h in cc
  | inr no_y ↦
      let rest : number p l ≡ 0 = rw (no_y) at h in
      elim (Bool-cases (y == x)) [
        | inl e ↦ ap p (sym ((same_iff y x).0 e)) ∙ no_y
        | inr e ↦ let there : contains x l ≡ true = rw (e) at i in number-none p l x rest there
      ]
]

pub count_char-dicts :
    (ch : Text) (d : Dictionary) (m : List (ℤ × ℕ))
    → ((count_char ch d m).0.dict_en ≡ d.dict_en) × ((count_char ch d m).0.dict_zh ≡ d.dict_zh)
unfolding count_char
count_char-dicts ch d m = ground arith

pub count_lines-dicts :
    (chs : List Text) (d : Dictionary) (m : List (ℤ × ℕ))
    → ((count_lines chs d m).0.dict_en ≡ d.dict_en) × ((count_lines chs d m).0.dict_zh ≡ d.dict_zh)
unfolding count_lines
count_lines-dicts [] d m = (refl, refl)
count_lines-dicts (ch ∷ chs) d m =
    let (en, zh) = count_char-dicts ch d m in
    let (en', zh') = count_lines-dicts chs (count_char ch d m).0 (count_char ch d m).1 in
    (en' ∙ en, zh' ∙ zh)

pub do_query-dicts :
    (d : Dictionary) (key : Text)
    → ((do_query d key).0.dict_en ≡ d.dict_en) × ((do_query d key).0.dict_zh ≡ d.dict_zh)
unfolding do_query
do_query-dicts d key = count_lines-dicts (char_set key) d []

pub entry_at-some :
    (dict : Entries) (i : ℕ) (e : Text × ℤ)
    → get_elem? dict i ≡ some e
    → entry_at dict (pos i) ≡ ok e
unfolding entry_at
entry_at-some dict i e h = rw (h, entry_at) refl

pub entry_at-Defined :
    (dict : Entries) (n : ℕ)
    → (entry_at dict (pos n) ≡ fault Fault.undefined)
      ⊎ ((e : Text × ℤ) × (entry_at dict (pos n) ≡ ok e))
unfolding entry_at
entry_at-Defined dict n = elim (Option-cases (get_elem? dict n)) [
  | inl out ↦ inl (rw (out, entry_at) refl)
  | inr (e, found) ↦ inr (e, rw (found, entry_at) refl)
]

-- The first line that is looked at meets the distance.
pub query_zh-undefined :
    (key : Text) (dict : Entries) (i count : ℕ) (rest : List (ℤ × ℕ)) (q : List CandidateResult)
    (word : Text) (freq : ℤ)
    → get_elem? dict i ≡ some (word, freq)
    → minimum_edit_dist key word ≡ fault Fault.undefined
    → query_zh key dict ((pos i, count) ∷ rest) q ≡ fault Fault.undefined
unfolding query_zh
query_zh-undefined key dict i count rest q word freq at dist =
    let first = entry_at-some dict i (word, freq) at in
    elim (entry_at-Defined dict count) [
      | inl out ↦ rw (first, out) refl
      | inr (e, found) ↦ rw (first, found, dist) refl
    ]

pub query_en-undefined :
    (key : Text) (dict : Entries) (i count : ℕ) (rest : List (ℤ × ℕ)) (q : List CandidateResult)
    (word : Text) (freq : ℤ)
    → get_elem? dict i ≡ some (word, freq)
    → minimum_edit_dist key word ≡ fault Fault.undefined
    → query_en key dict ((pos i, count) ∷ rest) q ≡ fault Fault.undefined
unfolding query_en
query_en-undefined key dict i count rest q word freq at dist =
    rw (entry_at-some dict i (word, freq) at, dist) refl

pub distance-undefined :
    (key word : Text) (m : ℕ)
    → char_len word ≡ pos (suc m)
    → suc m ≤ length key
    → suc m ≤ length word
    → minimum_edit_dist key word ≡ fault Fault.undefined
distance-undefined key word m h a b = minimum_edit_dist-undefined key word m h ∙ ground arith

pub find-head :
    (line : ℤ) (count : ℕ) (rest : List (ℤ × ℕ)) → find line ((line, count) ∷ rest) ≡ some count
unfolding find
find-head line count rest = ground (arith, (int_beq_iff line line).1 refl)

pub as_entry-some : (c n : ℕ) → as_entry c ≡ some n → (k : ℕ) × (c ≡ suc k)
unfolding as_entry
as_entry-some zero n h = cc
as_entry-some (suc c) n h = (c, refl)

pub as_entry-none : (c : ℕ) → as_entry c ≡ none → c ≡ 0
unfolding as_entry
as_entry-none zero h = refl
as_entry-none (suc c) h = cc

-- A line with a count shares a character with the key.
pub counted-IsShared :
    (d : Dictionary) (key : Text) (line : ℤ) (count : ℕ) (rest : List (ℤ × ℕ))
    → IsIndexed d
    → (do_query d key).1 ≡ (line, count) ∷ rest
    → (ch : Text) × IsShared d key line ch
counted-IsShared d key line count rest v e =
    let here = sym (do_query-number d key line v) ∙ ap (find line) e ∙ find-head line count rest in
    let (c, some_chars) = as_entry-some (number (lists d line) (char_set key)) count here in
    let (ch, there, listed) = number-some (lists d line) (char_set key) c some_chars in
    (ch, (there, listed))

-- Without a count no line shares one.
pub uncounted-unshared :
    (d : Dictionary) (key : Text) (line : ℤ) (ch : Text)
    → IsIndexed d
    → (do_query d key).1 ≡ []
    → contains ch (char_set key) ≡ true
    → lists d line ch ≡ false
unfolding find
uncounted-unshared d key line ch v e i =
    let none_found = sym (do_query-number d key line v) ∙ ap (find line) e in
    number-none (lists d line) (char_set key) ch
      (as_entry-none (number (lists d line) (char_set key)) none_found) i
