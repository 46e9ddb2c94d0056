-- ===== src/Key/DictProducer/Loaded.antt =====
-- `Store` for both languages, and then the constructor of `Dictionary`.
use serach_engine.Base.{
  ℕ, ◌≡◌, refl, ap, ◌∙◌, Text, bytes, Bool, true, false, List, [], ◌∷◌, ◌++◌, map, some,
  if◌then◌else◌, ◌==◌, text_eq, nat_eq, same, same_iff, arith,
}
use serach_engine.Base.Int.{ℤ, pos, int_eq}
use serach_engine.Base.Sets.{contains}
use serach_engine.Common.Configuration.{Files, Settings, setting}
use serach_engine.Key.DictProducer.Storable.{IsStorable, IsStorableIndex, as_entry}
use serach_engine.Key.DictProducer.Stored.{read_entries-dict_text, read_postings-index_text}
use serach_engine.Key.DictProducer.{
  DictProducer, Language, postings, dict_text, index_text, dict_path, index_path, write, store,
}
use serach_engine.Key.Dictionary.{
  Dictionary, lines_of, read_entries, read_postings, read_dict, read_dict_files, read_index,
  read_index_files, load,
}
use serach_engine.Streams.{lines}

-- The four files of the configuration can be written and are four files.
pub record IsUsable (config : Settings) (writable : Text → Bool) : Type 0 where
  pub dict_eng_opens : writable (dict_path config Language.eng) ≡ true
  pub dict_zh_opens : writable (dict_path config Language.cn) ≡ true
  pub index_eng_opens : writable (index_path config Language.eng) ≡ true
  pub index_zh_opens : writable (index_path config Language.cn) ≡ true
  pub dicts : (dict_path config Language.eng == dict_path config Language.cn) ≡ false
  pub indexes : (index_path config Language.eng == index_path config Language.cn) ≡ false
  pub eng : (index_path config Language.eng == dict_path config Language.eng) ≡ false
  pub zh : (index_path config Language.cn == dict_path config Language.cn) ≡ false
  pub eng_zh : (index_path config Language.eng == dict_path config Language.cn) ≡ false
  pub zh_eng : (index_path config Language.cn == dict_path config Language.eng) ≡ false

-- The files after both `Store` calls.
unfoldable pub stored : Settings → (Text → Bool) → DictProducer → DictProducer → Files → Files
unfolding store
stored config writable en zh files =
    (store config writable Language.cn zh (store config writable Language.eng en files).0).0

same_comm : (s t : Text) → same s t ≡ same t s
same_comm s t = ground (arith, same_iff s t, same_iff t s)

open_dict :
    (config : Settings) (files : Files) (unset : ℤ) (rest : List Text) (path : Text)
    (d : Dictionary) {s : Text}
    → files path ≡ some s
    → read_dict_files config files unset (path ∷ rest) d
      ≡ read_dict_files config files unset rest (
          if path == setting config (bytes "dict_eng")
          then record d { dict_en = d.dict_en ++ read_entries [] unset (lines s) }
          else record d { dict_zh = d.dict_zh ++ read_entries [] unset (lines s) })
unfolding read_dict_files
open_dict config files unset rest path d h = rw (h, read_dict_files)

open_index :
    (config : Settings) (files : Files) (unset : ℤ) (rest : List Text) (path : Text)
    (d : Dictionary) {s : Text}
    → files path ≡ some s
    → read_index_files config files unset (path ∷ rest) d
      ≡ read_index_files config files unset rest (
          if path == setting config (bytes "index_eng")
          then record d { index_en = read_postings [] unset (lines s) d.index_en }
          else record d { index_zh = read_postings [] unset (lines s) d.index_zh })
unfolding read_index_files
open_index config files unset rest path d h = rw (h, read_index_files)

module _ (config : Settings) (writable : Text → Bool) (en zh : DictProducer) (files : Files)
    (u : IsUsable config writable) where
  abbrev de : Text
  de = dict_path config Language.eng

  abbrev dz : Text
  dz = dict_path config Language.cn

  abbrev ie : Text
  ie = index_path config Language.eng

  abbrev iz : Text
  iz = index_path config Language.cn

  stored-dict_eng : stored config writable en zh files de ≡ some (dict_text en)
  unfolding stored write
  stored-dict_eng =
      ground (arith, same_iff de dz, same_iff dz de, same_iff ie de, same_iff iz de, same_iff de de)

  stored-dict_zh : stored config writable en zh files dz ≡ some (dict_text zh)
  unfolding stored write
  stored-dict_zh = ground (arith, same_iff iz dz, same_iff dz dz)

  stored-index_eng : stored config writable en zh files ie ≡ some (index_text en)
  unfolding stored write
  stored-index_eng =
      ground (arith, same_iff ie iz, same_iff iz ie, same_iff dz ie, same_iff ie dz, same_iff ie ie)

  stored-index_zh : stored config writable en zh files iz ≡ some (index_text zh)
  unfolding stored write
  stored-index_zh = ground (arith, same_iff iz iz)

  read_dict-stored :
      (unset : ℤ) (d : Dictionary)
      → read_dict config (stored config writable en zh files) unset d ≡ (
        record d {
          dict_en = d.dict_en ++ read_entries [] unset (lines (dict_text en));
          dict_zh = d.dict_zh ++ read_entries [] unset (lines (dict_text zh));
        },
        pos 0,
      )
  unfolding read_dict
  read_dict-stored unset d =
      open_dict config (stored config writable en zh files) unset (dz ∷ []) de d stored-dict_eng
      ∙ rw ((same_iff de de).1 refl) (
          open_dict config (stored config writable en zh files) unset [] dz _ stored-dict_zh
          ∙ rw (same_comm dz de, u.dicts) refl)

  read_index-stored :
      (unset : ℤ) (d : Dictionary)
      → read_index config (stored config writable en zh files) unset d ≡ (
        record d {
          index_en = read_postings [] unset (lines (index_text en)) d.index_en;
          index_zh = read_postings [] unset (lines (index_text zh)) d.index_zh;
        },
        pos 0,
      )
  unfolding read_index
  read_index-stored unset d =
      open_index config (stored config writable en zh files) unset (iz ∷ []) ie d stored-index_eng
      ∙ rw ((same_iff ie ie).1 refl) (
          open_index config (stored config writable en zh files) unset [] iz _ stored-index_zh
          ∙ rw (same_comm iz ie, u.indexes) refl)

-- What a dictionary holds that has read the files of two producers.
pub record IsLoaded (d : Dictionary) (en zh : DictProducer) : Type 0 where
  pub dict_en : d.dict_en ≡ map as_entry en.dict
  pub dict_zh : d.dict_zh ≡ map as_entry zh.dict
  pub index_en :
      (ch : Text) (i : ℕ)
      → contains (pos i) (lines_of ch d.index_en) ≡ contains i (postings ch en.index)
  pub index_zh :
      (ch : Text) (i : ℕ)
      → contains (pos i) (lines_of ch d.index_zh) ≡ contains i (postings ch zh.index)

-- After Store for both languages into four different writable files, a new Dictionary holds the
-- words and frequencies of both producers in order and its indexes list the lines that theirs do,
-- if words and letters have no white space, none is empty, and the numbers fit an int.
pub load-stored :
    (config : Settings) (writable : Text → Bool) (en zh : DictProducer) (files : Files) (unset : ℤ)
    → IsUsable config writable
    → IsStorable en.dict
    → IsStorable zh.dict
    → IsStorableIndex en.index
    → IsStorableIndex zh.index
    → IsLoaded (load config (stored config writable en zh files) unset) en zh
unfolding load
load-stored config writable en zh files unset u hde hdz hie hiz =
    let f = stored config writable en zh files in
    let e : load config f unset ≡ record filled {
      index_en = read_postings [] unset (lines (index_text en)) [];
      index_zh = read_postings [] unset (lines (index_text zh)) [];
    } =
      ap (λ (r : Dictionary × ℤ). (read_index config f unset r.0).0)
        (read_dict-stored config writable en zh files u unset empty)
      ∙ ap (λ (r : Dictionary × ℤ). r.0)
          (read_index-stored config writable en zh files u unset filled) in
    rw e (record {
      dict_en = read_entries-dict_text [] unset en hde;
      dict_zh = read_entries-dict_text [] unset zh hdz;
      index_en = λ ch i. read_postings-index_text unset en ch i hie;
      index_zh = λ ch i. read_postings-index_text unset zh ch i hiz;
    })
  where
    empty : Dictionary
    empty = record { dict_en = []; dict_zh = []; index_en = []; index_zh = [] }

    filled : Dictionary
    filled = record empty {
      dict_en = read_entries [] unset (lines (dict_text en));
      dict_zh = read_entries [] unset (lines (dict_text zh));
    }
