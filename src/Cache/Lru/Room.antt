-- ===== src/Cache/Lru/Room.antt =====
-- What `DeleteRear` of src/cache/lru_cache.cc leaves when the cache is full.
use serach_engine.Base.{
  ℕ, ◌<◌, ◌≡◌, refl, sym, ◌∙◌, ◌-◌, inl, inr, Text, Outcome, ok, nat_beq_iff, none, some, length,
  take, drop_last, last?, if◌then◌else◌, ◌==◌, text_eq, nat_eq, arith, Bool-cases, length-drop_last,
  take_of_length-le, drop_last-take,
}
use serach_engine.Base.Maps.{find, erase, find-erase}
use serach_engine.Cache.Lru.Links.{
  contents, address_of, IsLinked, drop_last-IsLinked, address_of-drop_last, contents-drop_last,
  last_of_length, length-contents,
}
use serach_engine.Cache.Lru.{LruCache, delete_rear}
use serach_engine.Cache.Lru.Coherence.{IsCoherent}

-- The cache after `if (size == cache_size) DeleteRear()`, for a key that is not in it.
pub record IsReady (c : LruCache) (key : Text) (d : LruCache) : Type 0 where
  pub linked : IsLinked c.next_address d.result_list
  pub room : length d.result_list < c.cache_size
  pub mapped : (k : Text) → find k d.hash_map ≡ address_of k d.result_list
  pub absent : address_of key d.result_list ≡ none
  pub kept : contents d.result_list ≡ take (c.cache_size - 1) (contents c.result_list)
  pub rest :
      (d.cache_size ≡ c.cache_size)
      × (d.next_address ≡ c.next_address)
      × (d.pending_update_list ≡ c.pending_update_list)

abbrev pub make_room : LruCache → Outcome LruCache
make_room c = if length c.result_list == c.cache_size then delete_rear c else ok c

pub evicted-IsReady :
    (c : LruCache) (key : Text) (a : ℕ) (k v : Text)
    → IsCoherent c
    → address_of key c.result_list ≡ none
    → length c.result_list ≡ c.cache_size
    → last? c.result_list ≡ some (a, (k, v))
    → IsReady c key
        (record c { result_list = drop_last c.result_list; hash_map = erase k c.hash_map })
evicted-IsReady c key a k v w absent full last = record {
  linked = drop_last-IsLinked c.next_address c.result_list w.linked;
  room = omega (arith, w.positive, length-drop_last c.result_list, full);
  mapped = λ j. ground (
    arith,
    find-erase k j c.hash_map,
    w.mapped j,
    address_of-drop_last c.next_address j c.result_list {a = a} {k = k} {v = v} w.linked last,
  );
  absent = ground (
    arith,
    address_of-drop_last c.next_address key c.result_list {a = a} {k = k} {v = v} w.linked last,
  );
  kept =
      contents-drop_last c.result_list
      ∙ drop_last-take (c.cache_size - 1) (contents c.result_list)
          (omega (arith, length-contents c.result_list, full, w.positive));
  rest = (refl, refl, refl);
}

pub make_room-IsReady :
    (c : LruCache) (key : Text)
    → IsCoherent c
    → address_of key c.result_list ≡ none
    → (d : LruCache) × (make_room c ≡ ok d) × IsReady c key d
unfolding delete_rear
make_room-IsReady c key w absent = elim (Bool-cases (length c.result_list == c.cache_size)) [
  | inl full ↦
      let n : length c.result_list ≡ c.cache_size = (nat_beq_iff _ _).0 full in
      let ((a, (k, v)), last) = last_of_length c.result_list (omega (arith, w.positive, n)) in
      (
        record c { result_list = drop_last c.result_list; hash_map = erase k c.hash_map },
        ground (arith, last),
        evicted-IsReady c key a k v w absent n last,
      )
  | inr space ↦
      let fits : length c.result_list < c.cache_size = ground (arith, w.bounded) in
      (
        c,
        rw space,
        record {
          linked = w.linked;
          room = fits;
          mapped = w.mapped;
          absent = absent;
          kept = sym (
              take_of_length-le (c.cache_size - 1) (contents c.result_list)
                (omega (arith, fits, length-contents c.result_list)));
          rest = (refl, refl, refl);
        },
      )
]
