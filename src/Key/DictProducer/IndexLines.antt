-- ===== src/Key/DictProducer/IndexLines.antt =====
-- The index lines of `Store` of src/key/dict_producer.cc, read back.
use mathlib.Core.Option
use serach_engine.Base.{
  ℕ, zero, suc, ◌^◌, ◌<◌, ◌≤◌, ◌≡◌, refl, sym, ap, ◌∙◌, Text, Bool, true, false, ◌||◌, List, [],
  ◌∷◌, ◌++◌, map, Option, none, some, text_before, All, length, length-append, if◌then◌else◌, ◌==◌,
  text_eq, nat_eq, arith, Option-cases, inl, inr,
}
use serach_engine.Base.Int.{ℤ, pos, int_eq, int_beq, ltb_ℤ}
use serach_engine.Base.Maps.{find, insert, or_else, find-insert_or}
use serach_engine.Base.Sets.{contains, add, contains-add}
use serach_engine.Key.DictProducer.{postings, print_lines, print_posting}
use serach_engine.Key.Dictionary.{Index, lines_of, add_ints, read_postings}
use serach_engine.Streams.{print_nat, open_text, read_word, read_int, ints_from}
use serach_engine.Streams.Read.{EndsWord, read_int-space}
use serach_engine.Key.DictProducer.Storable.{
  IsStorableIndex, read_key, read_number, is_space-tab, is_space-blank,
}

pub ends_lines : (s : List ℕ) → EndsWord (print_lines s)
unfolding print_lines
ends_lines [] = tt
ends_lines (i ∷ s) = is_space-blank

pub ints_from-print_lines :
    (fuel : ℕ) (old : ℤ) (s : List ℕ)
    → length s < fuel
    → All (λ i. i < 2 ^ 31) s
    → ints_from fuel old (open_text (print_lines s)) ≡ map pos s
unfolding ints_from print_lines read_int
ints_from-print_lines zero old s f h = absurd (omega arith)
ints_from-print_lines (suc fuel) old [] f h = refl
ints_from-print_lines (suc fuel) old (i ∷ s) f h =
    rw (read_number old 32 i (print_lines s) is_space-blank (ends_lines s) h.0)
      (ap (◌∷◌ (pos i)) (ints_from-print_lines fuel (pos i) s (omega arith) h.1))

pub length-print_lines : (s : List ℕ) → length s ≤ length (print_lines s)
unfolding print_lines
length-print_lines [] = omega arith
length-print_lines (i ∷ s) =
    omega (arith, length-append (32 ∷ print_nat i) (print_lines s), length-print_lines s)

pub or_else-none : (a : Option (List ℤ)) → a ≡ or_else a none
unfolding or_else
or_else-none none = refl
or_else-none (some x) = refl

pub ints_after_tab :
    (fuel : ℕ) (old : ℤ) (s : List ℕ)
    → length s < fuel
    → All (λ i. i < 2 ^ 31) s
    → ints_from fuel old (open_text (9 ∷ print_lines s)) ≡ map pos s
unfolding ints_from
ints_after_tab zero old s f h = absurd (omega arith)
ints_after_tab (suc fuel) old s f h =
    rw (read_int-space old 9 (print_lines s) is_space-tab)
      (ints_from-print_lines (suc fuel) old s f h)

pub contains-add_ints :
    (s : List ℤ) (xs : List ℕ) (i : ℕ)
    → contains (pos i) (add_ints s (map pos xs)) ≡ (contains (pos i) s || contains i xs)
unfolding add_ints contains int_beq
contains-add_ints s [] i = ground arith
contains-add_ints s (x ∷ xs) i =
    contains-add_ints (add ltb_ℤ (pos x) s) xs i
    ∙ ground (arith, contains-add ltb_ℤ (pos x) (pos i) s)

-- What a stored set reads back as.
unfoldable pub read_set : List ℕ → List ℤ
unfolding add_ints
read_set s = add_ints [] (map pos s)

pub or_else_step :
    (a : Option (List ℤ)) (b : Bool) (s : List ℕ) (o : Option (List ℕ))
    → or_else (or_else a (if b then some (read_set s) else none)) (Option.map read_set o)
      ≡ or_else a (Option.map read_set (if b then some s else o))
unfolding or_else
or_else_step (some x) b s o = refl
or_else_step none true s o = refl
or_else_step none false s o = refl

pub read_set_line :
    (letter : Text) (unset : ℤ) (s : List ℕ)
    → All (λ i. i < 2 ^ 31) s
    → add_ints [] (
        ints_from
          (suc (length (letter ++ 9 ∷ print_lines s)))
          unset
          (open_text (9 ∷ print_lines s)))
      ≡ read_set s
unfolding read_set
read_set_line letter unset s h = ap (add_ints []) (
    ints_after_tab _ unset s
      (omega (arith, length-append letter (9 ∷ print_lines s), length-print_lines s)) h)

pub read_postings-find :
    (ch₀ : Text) (unset : ℤ) (index : List (Text × List ℕ)) (acc : Index) (ch : Text)
    → IsStorableIndex index
    → find ch (read_postings ch₀ unset (map print_posting index) acc)
      ≡ or_else (find ch acc) (Option.map read_set (find ch index))
unfolding read_postings print_posting find
read_postings-find ch₀ unset [] acc ch h = or_else-none (find ch acc)
read_postings-find ch₀ unset ((letter, s) ∷ index) acc ch ((key, small), h) =
    let word : read_word ch₀ (open_text (print_posting (letter, s)))
        ≡ (letter, open_text (9 ∷ print_lines s)) =
      read_key ch₀ letter (9 ∷ print_lines s) key is_space-tab in
    rw (word, read_postings, read_set_line letter unset s small)
      (read_postings-find letter unset index (insert text_before letter (read_set s) acc) ch h
        ∙ ap (λ o. or_else o (Option.map read_set (find ch index)))
            (find-insert_or text_before letter ch (read_set s) acc)
        ∙ or_else_step (find ch acc) (letter == ch) s (find ch index))

pub lines_of-none : (ch : Text) (index : Index) → find ch index ≡ none → lines_of ch index ≡ []
unfolding lines_of
lines_of-none ch index h = rw (h, lines_of)

pub lines_of-some :
    (ch : Text) (index : Index) {s : List ℤ} → find ch index ≡ some s → lines_of ch index ≡ s
unfolding lines_of
lines_of-some ch index h = rw (h, lines_of)

pub postings-none :
    (ch : Text) (index : List (Text × List ℕ)) → find ch index ≡ none → postings ch index ≡ []
unfolding postings
postings-none ch index h = rw (h, postings)

pub postings-some :
    (ch : Text) (index : List (Text × List ℕ)) {s : List ℕ}
    → find ch index ≡ some s
    → postings ch index ≡ s
unfolding postings
postings-some ch index h = rw (h, postings)

pub read_postings-lines_of :
    (unset : ℤ) (index : List (Text × List ℕ)) (ch : Text) (i : ℕ)
    → IsStorableIndex index
    → contains (pos i) (lines_of ch (read_postings [] unset (map print_posting index) []))
      ≡ contains i (postings ch index)
unfolding or_else contains read_set find
read_postings-lines_of unset index ch i h = elim (Option-cases (find ch index)) [
  | inl new ↦
      let e : find ch (read_postings [] unset (map print_posting index) []) ≡ none =
        read_postings-find [] unset index [] ch h ∙ rw new refl in
      ap (contains (pos i)) (lines_of-none ch _ e)
      ∙ ap (contains i) (sym (postings-none ch index new))
  | inr (s, old) ↦
      let e : find ch (read_postings [] unset (map print_posting index) []) ≡ some (read_set s) =
        read_postings-find [] unset index [] ch h ∙ rw old refl in
      ap (contains (pos i)) (lines_of-some ch _ e)
      ∙ contains-add_ints [] s i
      ∙ ap (contains i) (sym (postings-some ch index old))
]
