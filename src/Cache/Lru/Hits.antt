-- ===== src/Cache/Lru/Hits.antt =====
-- What `AddRecord` of src/cache/lru_cache.cc does when the key is in the cache.
use serach_engine.Base.{
  ℕ, suc, ◌+◌, ◌≡◌, refl, sym, Text, ok, same_iff, ◌∷◌, some, length, text_eq, nat_eq, arith,
  take_of_length-le,
}
use serach_engine.Base.Maps.{find, erase, put, find-put, unordered}
use serach_engine.Cache.Lru.Links.{
  contents, address_of, IsLinked, IsLinked-mono, find_above, contents-erase, erase-IsLinked,
  address_of-erase, length-erase, length-contents,
}
use serach_engine.Cache.Lru.{LruCache, move_to_front, add_record}
use serach_engine.Cache.Lru.Coherence.{IsCoherent, pended, IsRecorded}

-- The state that `AddRecord` ends in when the key is in the cache.
abbrev pub after_hit : LruCache → Text → Text → ℕ → LruCache
after_hit c key result a = record c {
  result_list = (c.next_address, (key, result)) ∷ erase a c.result_list;
  hash_map = put unordered key c.next_address c.hash_map;
  next_address = suc c.next_address;
}

pub hit-eq :
    (c : LruCache) (key result v : Text) (a : ℕ)
    → find key c.hash_map ≡ some a
    → find a c.result_list ≡ some (key, v)
    → add_record c key result ≡ ok (after_hit c key result a)
unfolding add_record move_to_front
hit-eq c key result v a h f = ground arith

pub mapped_hit :
    (c : LruCache) (key : Text) (a : ℕ)
    → IsCoherent c
    → address_of key c.result_list ≡ some a
    → (result k : Text)
    → find k (after_hit c key result a).hash_map
      ≡ address_of k (after_hit c key result a).result_list
unfolding address_of
mapped_hit c key a v h result k = ground (
  arith,
  find-put unordered key k c.next_address c.hash_map,
  v.mapped k,
  address_of-erase c.next_address a key k c.result_list v.linked h,
)

pub hit-IsRecorded :
    (c : LruCache) (key result : Text) (a : ℕ)
    → IsCoherent c
    → address_of key c.result_list ≡ some a
    → IsRecorded c key result (after_hit c key result a)
hit-IsRecorded c key result a v h = record {
  coherent = record {
    positive = v.positive;
    linked = (
      omega arith,
      find_above c.next_address c.next_address _ (omega arith) erased,
      ground (arith, same_iff key key, address_of-erase c.next_address a key key _ v.linked h),
      IsLinked-mono c.next_address (suc c.next_address) _ (omega arith) erased,
    );
    bounded = omega (arith, shorter, v.bounded);
    pending_bounded = v.pending_bounded;
    mapped = mapped_hit c key a v h result;
  };
  same_size = refl;
  entries = rw (← contents-erase c.next_address a key c.result_list v.linked h) (
      sym (
        take_of_length-le c.cache_size ((key, result) ∷ contents (erase a c.result_list))
          (omega (arith, shorter, length-contents (erase a c.result_list), v.bounded))));
  pending = rw (h, pended);
}
  where
    erased : IsLinked c.next_address (erase a c.result_list)
    erased = erase-IsLinked c.next_address a c.result_list v.linked

    shorter : length (erase a c.result_list) + 1 ≡ length c.result_list
    shorter = length-erase c.next_address a key c.result_list v.linked h
