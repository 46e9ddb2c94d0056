-- ===== src/Key/Recommander/Queries.antt =====
-- `Query` of src/key/key_recommander.cc on a key that shares a character with the dictionary.
use serach_engine.Base.{
  ℕ, suc, ◌⊎◌, ◌≤◌, ◌≡◌, refl, ap, ◌∙◌, Text, true, false, Fault, ok, fault, List, [], ◌∷◌, some,
  length, get_elem?, text_eq, nat_eq, Bool-cases, inl, inr,
}
use serach_engine.Base.Int.{ℤ, pos, int_eq, int_beq}
use serach_engine.Base.Sets.{contains}
use serach_engine.Key.Dictionary.Query.{IsIndexed, lists}
use serach_engine.Key.Dictionary.{char_len, char_set, do_query}
use serach_engine.Key.Recommander.{KeyRecommander, minimum_edit_dist, query_zh, query_en, query}
use serach_engine.Key.Recommander.Shared.{
  dict_for, IsPlain, IsShared, do_query-dicts, query_zh-undefined, query_en-undefined,
  distance-undefined, counted-IsShared, uncounted-unshared,
}

-- Query finds no line that shares a character with the key, and keeps the candidates, or it is
-- undefined.
abbrev pub IsQueried : KeyRecommander → Text → Type 0
IsQueried k key =
    ((query k key ≡ ok (record k { dictionary = (do_query k.dictionary key).0; sought = key }))
      × ((line : ℤ) (ch : Text)
          → contains ch (char_set key) ≡ true
          → lists k.dictionary line ch ≡ false))
    ⊎ ((query k key ≡ fault Fault.undefined)
        × (line : ℤ) × (ch : Text) × IsShared k.dictionary key line ch)

pub query-none :
    (k : KeyRecommander) (key : Text)
    → (do_query k.dictionary key).1 ≡ []
    → query k key ≡ ok (record k { dictionary = (do_query k.dictionary key).0; sought = key })
unfolding query query_zh query_en
query-none k key e = elim (Bool-cases (int_beq (char_len key) (pos 3))) [
  | inl zh ↦ rw (zh, e, query) refl
  | inr en ↦ rw (en, e, query) refl
]

query-counted :
    (k : KeyRecommander) (key : Text) (m i count : ℕ) (rest : List (ℤ × ℕ)) (word : Text) (freq : ℤ)
    → (do_query k.dictionary key).1 ≡ (pos i, count) ∷ rest
    → char_len key ≡ pos (suc m)
    → get_elem? (dict_for (pos (suc m)) k.dictionary) i ≡ some (word, freq)
    → minimum_edit_dist key word ≡ fault Fault.undefined
    → query k key ≡ fault Fault.undefined
unfolding query dict_for
query-counted k key m i count rest word freq e size at dist =
    let (en_same, zh_same) = do_query-dicts k.dictionary key in
    elim (Bool-cases (int_beq (pos (suc m)) (pos 3))) [
      | inl zh ↦
          let at_zh : get_elem? (do_query k.dictionary key).0.dict_zh i ≡ some (word, freq) =
            ap (λ dict. get_elem? dict i) zh_same ∙ rw (zh, dict_for) at at in
          rw
            (
              size,
              zh,
              e,
              query_zh-undefined key (do_query k.dictionary key).0.dict_zh i count rest k.prique
                  word freq at_zh dist,
            )
            refl
      | inr en ↦
          let at_en : get_elem? (do_query k.dictionary key).0.dict_en i ≡ some (word, freq) =
            ap (λ dict. get_elem? dict i) en_same ∙ rw (en, dict_for) at at in
          rw
            (
              size,
              en,
              e,
              query_en-undefined key (do_query k.dictionary key).0.dict_en i count rest k.prique
                  word freq at_en dist,
            )
            refl
    ]

-- For a key whose characters all have one known size and which is not shorter than one, and a
-- dictionary whose index sets hold no line twice and list only lines of words that begin with a
-- character of that size and are not shorter, Query either finds no line that shares a character
-- with the key and leaves the candidates as they are, or some line shares one and Query is
-- undefined.
pub query-IsQueried :
    (k : KeyRecommander) (key : Text) (m : ℕ)
    → IsIndexed k.dictionary
    → IsPlain (suc m) k.dictionary
    → char_len key ≡ pos (suc m)
    → ((ch : Text) → contains ch (char_set key) ≡ true → char_len ch ≡ pos (suc m))
    → suc m ≤ length key
    → IsQueried k key
query-IsQueried k key m v plain size sizes long = by_counts (do_query k.dictionary key).1 refl
  where
    by_counts : (counts : List (ℤ × ℕ)) → (do_query k.dictionary key).1 ≡ counts → IsQueried k key
    by_counts [] e =
        inl (
          query-none k key e,
          λ line ch there. uncounted-unshared k.dictionary key line ch v e there,
        )
    by_counts ((line, count) ∷ rest) e =
        let (ch, (there, listed)) = counted-IsShared k.dictionary key line count rest v e in
        let (i, word, freq, same_line, at, plain_word, long_word) =
          plain line ch (sizes ch there) listed in
        let e' : (do_query k.dictionary key).1 ≡ (pos i, count) ∷ rest =
          e ∙ ap (λ n. (n, count) ∷ rest) same_line in
        let undefined_call =
          query-counted k key m i count rest word freq e' size at
            (distance-undefined key word m plain_word long long_word) in
        inr (undefined_call, line, ch, (there, listed))
