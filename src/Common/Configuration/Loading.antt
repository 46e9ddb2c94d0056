-- ===== src/Common/Configuration/Loading.antt =====
-- What a configuration of src/common/configuration.cc holds once it is loaded.
use serach_engine.Base.{
  ◌≡◌, refl, ◌∙◌, Text, bytes, ◌||◌, Outcome, ok, List, [], ◌∷◌, Option, some, text_eq, text_before,
  arith,
}
use serach_engine.Base.Maps.{find}
use serach_engine.Base.Sets.{add, contains, contains-add}
use serach_engine.Common.Configuration.{
  Files, Settings, Configuration, add_words, open_file, at, load_stop_word_list, load_config, load,
}
use serach_engine.Streams.{words}

contains-add_words :
    (w : Text) (s ws : List Text) → contains w (add_words s ws) ≡ (contains w s || contains w ws)
unfolding add_words contains
contains-add_words w s [] = ground arith
contains-add_words w s (x ∷ ws) =
    contains-add_words w (add text_before x s) ws ∙ ground (arith, contains-add text_before x w s)

-- When the JSON reader gives a configuration that names both stop word files and both can be
-- opened, Load returns with that configuration and with exactly the words of the two files as stop
-- words.
pub load-contains :
    (parse : Option Text → Outcome Settings) (files : Files) (file_path : Text) (config : Settings)
    (eng_path zh_path eng zh w : Text)
    → parse (files file_path) ≡ ok config
    → find (bytes "stop_word_eng") config ≡ some eng_path
    → find (bytes "stop_word_zh") config ≡ some zh_path
    → files eng_path ≡ some eng
    → files zh_path ≡ some zh
    → (c : Configuration) × (load parse files file_path ≡ ok c)
      × (c.config ≡ config)
      × (contains w c.stop_word_list ≡ (contains w (words eng) || contains w (words zh)))
unfolding load at open_file contains
load-contains parse files file_path config eng_path zh_path eng zh w p e z fe fz = (
  record { config = config; stop_word_list = add_words (add_words [] (words eng)) (words zh) },
  rw (p, load, load_config, load_stop_word_list, at, open_file, e, fe, z, fz) refl,
  refl,
  contains-add_words w _ (words zh) ∙ ground (arith, contains-add_words w [] (words eng)),
)
