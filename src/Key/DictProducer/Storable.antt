-- ===== src/Key/DictProducer/Storable.antt =====
-- What the files of `Store` of src/key/dict_producer.cc can carry, and a line of words read back.
use mathlib.Core.List.{append-nil}
use serach_engine.Base.{
  ℕ, ◌^◌, ◌<◌, ◌≡◌, refl, sym, ap, ◌∙◌, Text, true, List, [], ◌∷◌, ◌++◌, map, All, text_eq, nat_eq,
}
use serach_engine.Base.Int.{ℤ, pos, int_eq}
use serach_engine.Key.DictProducer.{print_entry}
use serach_engine.Key.Dictionary.{read_entries}
use serach_engine.Streams.{is_space, print_nat, open_text, read_word, read_int}
use serach_engine.Streams.Read.{
  IsLine, IsWord, EndsWord, read_word-append, read_int-print_nat, read_int-space, word-IsLine,
}

-- A word or letter that a line of a stored file gives back: not empty, no white space.
abbrev pub IsKey : Text → Type 0
IsKey [] = ⊥
IsKey (c ∷ w) = IsWord (c ∷ w)

-- A dictionary that the file format can carry.
abbrev pub IsStorable : List (Text × ℕ) → Type 0
IsStorable = All (λ e. IsKey e.0 × (e.1 < 2 ^ 31))

abbrev pub IsStorableIndex : List (Text × List ℕ) → Type 0
IsStorableIndex = All (λ e. IsKey e.0 × All (λ i. i < 2 ^ 31) e.1)

abbrev pub as_entry : Text × ℕ → Text × ℤ
as_entry (w, n) = (w, pos n)

pub key-IsLine : (w : Text) → IsKey w → IsLine w
key-IsLine [] h = tt
key-IsLine (c ∷ w) h = word-IsLine (c ∷ w) h

pub read_key :
    (old w r : Text) → IsKey w → EndsWord r → read_word old (open_text (w ++ r)) ≡ (w, open_text r)
read_key old [] r h e = absurd h
read_key old (c ∷ w) r h e = read_word-append old c w r h e

pub read_number :
    (old : ℤ) (c n : ℕ) (r : Text)
    → is_space c ≡ true
    → EndsWord r
    → n < 2 ^ 31
    → read_int old (open_text (c ∷ print_nat n ++ r)) ≡ (pos n, open_text r)
read_number old c n r h e lt =
    read_int-space old c (print_nat n ++ r) h ∙ read_int-print_nat old n r e lt

pub is_space-tab : is_space 9 ≡ true
unfolding is_space
is_space-tab = refl

pub is_space-blank : is_space 32 ≡ true
unfolding is_space
is_space-blank = refl

pub read_entries-print_entry :
    (word : Text) (freq : ℤ) (d : List (Text × ℕ))
    → IsStorable d
    → read_entries word freq (map print_entry d) ≡ map as_entry d
unfolding read_entries print_entry
read_entries-print_entry word freq [] h = refl
read_entries-print_entry word freq ((w, n) ∷ d) ((key, lt), h) =
    let number : read_int freq (open_text (9 ∷ print_nat n)) ≡ (pos n, open_text []) =
      ap (λ s. read_int freq (open_text (9 ∷ s))) (sym (append-nil (print_nat n)))
      ∙ read_number freq 9 n [] is_space-tab tt lt in
    rw (read_key word w (9 ∷ print_nat n) key is_space-tab, number)
      (ap (◌∷◌ (w, pos n)) (read_entries-print_entry w (pos n) d h))
