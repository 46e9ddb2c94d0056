-- ===== src/Web/Caculate.antt =====
-- `CaculateValue` of src/web/caculate.cc: the TF-IDF weights of the words of one text.
use serach_engine.Base.{ℕ, suc, Text, List, [], ◌∷◌, text_eq}
use serach_engine.Base.Maps.{count_of, insert, unordered}
use serach_engine.Web.Double.{Double}

module _ (D : Double) where
  -- The first loop. `document_frequencies[word]` of a missing word is 0, and what it adds to the
  -- copy of the map is read by no one.
  unfoldable pub add_weights :
      List (Text × ℕ) → List (Text × ℕ) → ℕ → List (Text × D.Carrier) → List (Text × D.Carrier)
  add_weights [] df total weights = weights
  add_weights ((word, term_frequency) ∷ rest) df total weights =
      let idf = D.log2 (D.over (D.of_nat total) (D.of_nat (suc (count_of word df)))) in
      add_weights rest df total
        (insert unordered word (D.times (D.of_nat term_frequency) idf) weights)

  -- `for (pair : weights) sum += pair.second * pair.second`.
  unfoldable pub sum_squares : List (Text × D.Carrier) → D.Carrier → D.Carrier
  sum_squares [] sum = sum
  sum_squares ((word, w) ∷ rest) sum = sum_squares rest (D.plus sum (D.times w w))

  -- The last loop.
  unfoldable pub divide_all : D.Carrier → List (Text × D.Carrier) → List (Text × D.Carrier)
  divide_all norm [] = []
  divide_all norm ((word, w) ∷ rest) = (word, D.over w norm) ∷ divide_all norm rest

  unfoldable pub caculate_value : List (Text × ℕ) → List (Text × ℕ) → ℕ → List (Text × D.Carrier)
  unfolding add_weights sum_squares divide_all
  caculate_value terms df total =
      let weights = add_weights terms df total [] in
      divide_all (D.sqrt (sum_squares weights (D.of_nat 0))) weights
