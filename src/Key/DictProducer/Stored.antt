-- ===== src/Key/DictProducer/Stored.antt =====
-- The files of `Store`, read back by `Dictionary`.
use serach_engine.Base.{
  ℕ, ◌≡◌, refl, ap, ◌∙◌, Text, List, [], ◌∷◌, map, All, All-append, text_eq, nat_eq,
}
use serach_engine.Base.Int.{ℤ, pos, int_eq}
use serach_engine.Base.Sets.{contains}
use serach_engine.Key.DictProducer.{
  DictProducer, postings, print_entry, print_lines, print_posting, dict_text, index_text,
}
use serach_engine.Key.Dictionary.{lines_of, read_entries, read_postings}
use serach_engine.Streams.{lines, print_nat, print_nat-IsDigits}
use serach_engine.Streams.Read.{IsLine, lines-unlines, digits-IsLine}
use serach_engine.Key.DictProducer.Storable.{
  IsStorable, IsStorableIndex, as_entry, key-IsLine, read_entries-print_entry,
}
use serach_engine.Key.DictProducer.IndexLines.{read_postings-lines_of}

print_entry-IsLine : (d : List (Text × ℕ)) → IsStorable d → All IsLine (map print_entry d)
unfolding print_entry
print_entry-IsLine [] h = tt
print_entry-IsLine ((w, n) ∷ d) h = (
  All-append _ w (9 ∷ print_nat n) (key-IsLine w h.0.0)
      (refl, digits-IsLine (print_nat n) (print_nat-IsDigits n)),
  print_entry-IsLine d h.1,
)

print_lines-IsLine : (s : List ℕ) → IsLine (print_lines s)
unfolding print_lines
print_lines-IsLine [] = tt
print_lines-IsLine (i ∷ s) =
    All-append _ (32 ∷ print_nat i) (print_lines s)
      (refl, digits-IsLine (print_nat i) (print_nat-IsDigits i)) (print_lines-IsLine s)

print_posting-IsLine :
    (index : List (Text × List ℕ)) → IsStorableIndex index → All IsLine (map print_posting index)
unfolding print_posting
print_posting-IsLine [] h = tt
print_posting-IsLine ((letter, s) ∷ index) h = (
  All-append _ letter (9 ∷ print_lines s) (key-IsLine letter h.0.0) (refl, print_lines-IsLine s),
  print_posting-IsLine index h.1,
)

-- For a dictionary whose words are not empty and have no white space and whose numbers fit an int,
-- ReadDict reads back the words and the frequencies that Store wrote, in order, whatever the word
-- and the number held before.
pub read_entries-dict_text :
    (word : Text) (freq : ℤ) (p : DictProducer)
    → IsStorable p.dict
    → read_entries word freq (lines (dict_text p)) ≡ map as_entry p.dict
unfolding dict_text
read_entries-dict_text word freq p h =
    ap (read_entries word freq)
      (lines-unlines (map print_entry p.dict) (print_entry-IsLine p.dict h))
    ∙ read_entries-print_entry word freq p.dict h

-- For an index whose letters are not empty and have no white space and whose numbers fit an int,
-- ReadIndex gives each letter the line set that Store wrote under it.
pub read_postings-index_text :
    (unset : ℤ) (p : DictProducer) (ch : Text) (i : ℕ)
    → IsStorableIndex p.index
    → contains (pos i) (lines_of ch (read_postings [] unset (lines (index_text p)) []))
      ≡ contains i (postings ch p.index)
unfolding index_text
read_postings-index_text unset p ch i h =
    ap (λ ls. contains (pos i) (lines_of ch (read_postings [] unset ls [])))
      (lines-unlines (map print_posting p.index) (print_posting-IsLine p.index h))
    ∙ read_postings-lines_of unset p.index ch i h
