-- ===== src/Key/DictProducer/Tests.antt =====
-- Runs of the producer of src/key/dict_producer.cc.
use serach_engine.Base.{◌≡◌, refl, bytes, true, [], ◌∷◌, some, arith, text_eq, nat_eq, same}
use serach_engine.Base.Int.{pos, int_eq}
use serach_engine.Base.Maps.{count_of, find}
use serach_engine.Common.Configuration.{Files, Settings, setting}
use serach_engine.Key.Dictionary.{load}
use serach_engine.Key.DictProducer.{DictProducer, read_stop_word, build_en_dict}
use serach_engine.Key.DictProducer.Counts.{frequency, words_of_lines, build_en_dict-frequency}
use serach_engine.Key.DictProducer.Loaded.{IsUsable, IsLoaded, stored, load-stored}
use serach_engine.Key.DictProducer.Storable.{IsStorable, IsStorableIndex}
use serach_engine.Streams.{lines, is_space}

-- Every file has the same two lines.
abbrev files : Files
files path = some (97 ∷ 98 ∷ 32 ∷ 97 ∷ 10 ∷ 98 ∷ 10 ∷ [])

abbrev paths : Settings
paths = (bytes "english", 101 ∷ []) ∷ (bytes "stop_word_eng", 115 ∷ []) ∷ []

-- Two words and the letters of the first lines.
abbrev producer : DictProducer
producer = record {
  file = [];
  dict = (97 ∷ 98 ∷ [], 2) ∷ (99 ∷ [], 5) ∷ [];
  index = (97 ∷ [], 0 ∷ []) ∷ (99 ∷ [], 1 ∷ []) ∷ [];
}

-- One Chinese word of three bytes.
abbrev chinese : DictProducer
chinese = record {
  file = [];
  dict = (228 ∷ 184 ∷ 173 ∷ [], 4) ∷ [];
  index = (228 ∷ 184 ∷ 173 ∷ [], 0 ∷ []) ∷ [];
}

producer-IsStorable : IsStorable producer.dict
unfolding is_space
producer-IsStorable = (((refl, (refl, tt)), omega arith), (((refl, tt), omega arith), tt))

producer-IsStorableIndex : IsStorableIndex producer.index
unfolding is_space
producer-IsStorableIndex = (((refl, tt), (omega arith, tt)), (((refl, tt), (omega arith, tt)), tt))

chinese-IsStorable : IsStorable chinese.dict
unfolding is_space
chinese-IsStorable = (((refl, (refl, (refl, tt))), omega arith), tt)

chinese-IsStorableIndex : IsStorableIndex chinese.index
unfolding is_space
chinese-IsStorableIndex = (((refl, (refl, (refl, tt))), (omega arith, tt)), tt)

build_en_dict-frequency_example :
    count_of (97 ∷ []) (build_en_dict paths files producer).dict
    ≡ frequency
        (read_stop_word files [] (setting paths (bytes "stop_word_eng")))
        (97 ∷ [])
        (words_of_lines (lines (97 ∷ 98 ∷ 32 ∷ 97 ∷ 10 ∷ 98 ∷ 10 ∷ [])))
build_en_dict-frequency_example =
    build_en_dict-frequency paths files producer (97 ∷ []) (97 ∷ 98 ∷ 32 ∷ 97 ∷ 10 ∷ 98 ∷ 10 ∷ [])
      refl

-- Four files.
abbrev config : Settings
config =
    (bytes "dict_zh", 1 ∷ [])
    ∷ (bytes "dict_eng", 2 ∷ [])
    ∷ (bytes "index_zh", 3 ∷ [])
    ∷ (bytes "index_eng", 4 ∷ [])
    ∷ []

config-IsUsable : IsUsable config (λ path. true)
unfolding setting find same
config-IsUsable = record {
  dict_eng_opens = refl;
  dict_zh_opens = refl;
  index_eng_opens = refl;
  index_zh_opens = refl;
  dicts = refl;
  indexes = refl;
  eng = refl;
  zh = refl;
  eng_zh = refl;
  zh_eng = refl;
}

load-stored_example :
    IsLoaded
      (load config (stored config (λ path. true) producer chinese files) (pos 0))
      producer
      chinese
load-stored_example =
    load-stored config (λ path. true) producer chinese files (pos 0) config-IsUsable
      producer-IsStorable chinese-IsStorable producer-IsStorableIndex chinese-IsStorableIndex
