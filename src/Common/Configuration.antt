-- ===== src/Common/Configuration.antt =====
-- `Configuration` of src/common/configuration.cc, and `Open` of src/common/file.cc. The file
-- system is a function from paths to contents; the JSON reader is a parameter.
pub mod Loading
mod Tests
use serach_engine.Base.{
  Text, bytes, Outcome, Fault, ok, fault, ◌>>=◌, List, [], ◌∷◌, Option, none, some, text_eq,
  text_before,
}
use serach_engine.Base.Maps.{find}
use serach_engine.Base.Sets.{add}
use serach_engine.Streams.{words}

-- The contents of the file that can be opened at a path.
abbrev pub Files : Type 0
Files = Text → Option Text

abbrev pub Settings : Type 0
Settings = List (Text × Text)

-- `GetConfig()[name]`: a missing name gives the empty string.
unfoldable pub setting : Settings → Text → Text
setting config name = elim (find name config) [ none ↦ [] | some v ↦ v ]

pub record Configuration : Type 0 where
  pub config : Settings
  pub stop_word_list : List Text

-- `while (ifs >> word) set.insert(word)`.
unfoldable pub add_words : List Text → List Text → List Text
add_words s [] = s
add_words s (w ∷ ws) = add_words (add text_before w s) ws

-- `Open`: a file that cannot be opened throws.
unfoldable pub open_file : Files → Text → Outcome Text
open_file files path = elim (files path) [ none ↦ fault Fault.runtime_error | some s ↦ ok s ]

-- `_config.at(name)` throws on a missing name.
unfoldable pub at : Settings → Text → Outcome Text
at config name = elim (find name config) [ none ↦ fault Fault.out_of_range | some v ↦ ok v ]

-- `Configuration::LoadStopWordList`.
unfoldable pub load_stop_word_list : Files → Configuration → Outcome Configuration
unfolding at open_file
load_stop_word_list files c = do
  eng_path ← at c.config (bytes "stop_word_eng")
  eng ← open_file files eng_path
  zh_path ← at c.config (bytes "stop_word_zh")
  zh ← open_file files zh_path
  ok (record c { stop_word_list = add_words (add_words c.stop_word_list (words eng)) (words zh) })

-- `Configuration::LoadConfig`: `parse` is what the JSON library makes of the file's "path" object,
-- or the exception that it throws.
module _ (parse : Option Text → Outcome Settings) where
  unfoldable pub load_config : Files → Text → Configuration → Outcome Configuration
  load_config files file_path c = do read ← parse (files file_path); ok (record c { config = read })

  -- `Configuration::Load`, from the constructor.
  unfoldable pub load : Files → Text → Outcome Configuration
  unfolding load_config load_stop_word_list
  load files file_path = do
    c ← load_config files file_path (record { config = []; stop_word_list = [] })
    load_stop_word_list files c
