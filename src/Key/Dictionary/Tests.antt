-- ===== src/Key/Dictionary/Tests.antt =====
-- Runs of the dictionary of src/key/dictionary.cc.
use serach_engine.Base.{[], ◌∷◌, text_eq}
use serach_engine.Base.Int.{pos, int_eq}
use serach_engine.Key.Dictionary.{Dictionary}

-- The letter `a` stands in the lines 0 and 1.
abbrev d : Dictionary
d = record {
  dict_en = [];
  dict_zh = [];
  index_en = (97 ∷ [], pos 0 ∷ pos 1 ∷ []) ∷ [];
  index_zh = [];
}
