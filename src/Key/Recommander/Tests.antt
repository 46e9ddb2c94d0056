-- ===== src/Key/Recommander/Tests.antt =====
-- Runs of the recommender of src/key/key_recommander.cc.
use serach_engine.Base.Maps.{find}
use serach_engine.Base.Sets.{contains, add}
use serach_engine.Key.Dictionary.{lines_of, char_set, chars_of}
use serach_engine.Key.Dictionary.Query.{IsOnce, lists}
use serach_engine.Key.Recommander.Shared.{IsPlain, dict_for}
use serach_engine.Key.Recommander.Queries.{IsQueried, query-IsQueried}
use serach_engine.Base.{
  Text, Bool, true, false, none, some, if◌then◌else◌, text_eq, sym, same, same_iff, arith, ◌≡◌,
  refl, fault, Fault, [], ◌∷◌,
}
use serach_engine.Base.Int.{ℤ, pos, int_beq, int_beq_iff, int_eq}
use serach_engine.Key.Dictionary.{char_len, first_byte}
use serach_engine.Key.Recommander.{CandidateResult, KeyRecommander, minimum_edit_dist}
use serach_engine.Key.Recommander.Distance.{minimum_edit_dist-undefined}

minimum_edit_dist-undefined_example : minimum_edit_dist (97 ∷ []) (97 ∷ []) ≡ fault Fault.undefined
unfolding char_len first_byte
minimum_edit_dist-undefined_example = minimum_edit_dist-undefined (97 ∷ []) (97 ∷ []) 0 refl

abbrev near : CandidateResult
near = record { word = 97 ∷ []; freq = pos 1; dist = pos 0 }

abbrev far : CandidateResult
far = record { word = 98 ∷ []; freq = pos 9; dist = pos 2 }

abbrev asked : KeyRecommander
asked = record {
  prique = near ∷ far ∷ [];
  dictionary = record { dict_en = []; dict_zh = []; index_en = []; index_zh = [] };
  sought = 97 ∷ [];
  resultvec = [];
}

-- The dictionary of "ab", whose two letters list its line.
abbrev one_word : KeyRecommander
one_word = record {
  prique = [];
  dictionary = record {
    dict_en = (97 ∷ 98 ∷ [], pos 5) ∷ [];
    dict_zh = [];
    index_en = (97 ∷ [], pos 0 ∷ []) ∷ (98 ∷ [], pos 0 ∷ []) ∷ [];
    index_zh = [];
  };
  sought = [];
  resultvec = [];
}

one_word-IsOnce : (ch : Text) → IsOnce (lines_of ch one_word.dictionary.index_en)
unfolding lines_of find contains
one_word-IsOnce ch = at_keys (same (97 ∷ []) ch) (same (98 ∷ []) ch)
  where
    at_keys :
        (a b : Bool)
        → IsOnce (elim (if a then some (pos 0 ∷ []) else if b then some (pos 0 ∷ []) else none) [
          | none ↦ []
          | some s ↦ s
        ])
    at_keys true b = (refl, tt)
    at_keys false true = (refl, tt)
    at_keys false false = tt

one_word-line :
    (line : ℤ) (ch : Text)
    → char_len ch ≡ pos 1
    → lists one_word.dictionary line ch ≡ true
    → line ≡ pos 0
unfolding lists lines_of find contains
one_word-line line ch size h = ground (arith, size, int_beq_iff (pos 0) line)

one_word-IsPlain : IsPlain 1 one_word.dictionary
unfolding dict_for char_len first_byte int_beq
one_word-IsPlain line ch size h =
    (0, 97 ∷ 98 ∷ [], pos 5, one_word-line line ch size h, refl, refl, omega arith)

one_word-sizes : (ch : Text) → contains ch (char_set (97 ∷ [])) ≡ true → char_len ch ≡ pos 1
unfolding char_set char_len first_byte contains chars_of add
one_word-sizes ch h =
    let e : ch ≡ 97 ∷ [] = sym ((same_iff (97 ∷ []) ch).0 (ground arith)) in rw (e) refl

query-IsQueried_example : IsQueried one_word (97 ∷ [])
unfolding char_len first_byte lines_of find
query-IsQueried_example =
    query-IsQueried one_word (97 ∷ []) 0 (record { en = one_word-IsOnce; zh = λ ch. tt })
      one_word-IsPlain refl one_word-sizes (omega arith)
