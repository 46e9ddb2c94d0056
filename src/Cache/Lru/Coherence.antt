-- ===== src/Cache/Lru/Coherence.antt =====
-- When the lists and the hash map of src/cache/lru_cache.cc fit together.
use serach_engine.Base.{◌≤◌, ◌<◌, ◌≡◌, Text, List, ◌∷◌, none, some, length, take, text_eq, nat_eq}
use serach_engine.Base.Maps.{find, erase}
use serach_engine.Cache.Lru.Links.{contents, address_of, IsLinked}
use serach_engine.Cache.Lru.{LruCache}

-- The hash map holds the iterator of each key in the list and no other; both lists fit.
pub record IsCoherent (c : LruCache) : Type 0 where
  pub positive : 0 < c.cache_size
  pub linked : IsLinked c.next_address c.result_list
  pub bounded : length c.result_list ≤ c.cache_size
  pub pending_bounded : length c.pending_update_list ≤ c.cache_size
  pub mapped : (k : Text) → find k c.hash_map ≡ address_of k c.result_list

-- An entry comes to the front, and an older one with its key goes.
abbrev pub touch : Text → Text → List (Text × Text) → List (Text × Text)
touch key result l = (key, result) ∷ erase key l

-- The pending list after a record: a known key is not pended.
abbrev pub pended : LruCache → Text → Text → List (Text × Text)
pended c key result = elim (address_of key c.result_list) [
  | some a ↦ c.pending_update_list
  | none ↦ take c.cache_size ((key, result) ∷ c.pending_update_list)
]

-- What a call that records an entry must leave.
pub record IsRecorded (c : LruCache) (key result : Text) (c' : LruCache) : Type 0 where
  pub coherent : IsCoherent c'
  pub same_size : c'.cache_size ≡ c.cache_size
  pub entries :
      contents c'.result_list ≡ take c.cache_size (touch key result (contents c.result_list))
  pub pending : c'.pending_update_list ≡ pended c key result
