-- ===== src/Key/DictProducer/Postings.antt =====
-- The index that `CreateIndex` builds.
use serach_engine.Base.{
  ℕ, Text, Bool, false, List, Option, none, some, length, get_elem?, text_eq, nat_eq,
}
use serach_engine.Base.Sets.{contains}
use serach_engine.Key.DictProducer.{DictProducer}
use serach_engine.Key.Dictionary.{pieces}

-- Whether the word of line `i` has a letter.
has_letter : ℕ → Text → Option (Text × ℕ) → Bool
has_letter size letter none = false
has_letter size letter (some (word, freq)) = contains letter (pieces (length word) size word)

unfoldable pub line_has : ℕ → Text → List (Text × ℕ) → ℕ → Bool
unfolding has_letter
line_has size letter dict i = has_letter size letter (get_elem? dict i)
