-- ===== src/Common/Configuration/Tests.antt =====
-- A configuration of src/common/configuration.cc with the stop words `a` and `b`.
use serach_engine.Base.{Text, bytes, Outcome, ok, [], ◌∷◌, Option, some, text_eq}
use serach_engine.Common.Configuration.{Files, Settings}

abbrev settings : Settings
settings = (bytes "stop_word_eng", 1 ∷ []) ∷ (bytes "stop_word_zh", 2 ∷ []) ∷ []

abbrev parse : Option Text → Outcome Settings
parse text = ok settings

abbrev files : Files
files path = some (97 ∷ 32 ∷ 98 ∷ [])
