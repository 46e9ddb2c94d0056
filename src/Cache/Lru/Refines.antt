-- ===== src/Cache/Lru/Refines.antt =====
-- What `AddRecord` does to the entries, with the iterators and the hash map gone.
use serach_engine.Base.{
  ℕ, zero, suc, ◌≤◌, ◌<◌, ◌≡◌, refl, sym, ap, ◌∙◌, ◌-◌, inl, inr, Text, ok, nat_beq_iff, List, [],
  ◌∷◌, none, length, take, if◌then◌else◌, ◌==◌, text_eq, nat_eq, arith, Bool-cases, Option-cases,
  length-take, take_of_length-le, drop_last-take,
}
use serach_engine.Base.Maps.{find, insert, find-insert, unordered}
use serach_engine.Cache.Lru.Links.{
  contents, address_of, IsLinked, IsLinked-mono, find_above, node_of_address, erase_absent_key,
}
use serach_engine.Cache.Lru.{LruCache, add_front, pop_back, add_to_pending, add_record}
use serach_engine.Cache.Lru.Coherence.{IsCoherent, pended, IsRecorded}
use serach_engine.Cache.Lru.Hits.{after_hit, hit-eq, hit-IsRecorded}
use serach_engine.Cache.Lru.Room.{IsReady, make_room, make_room-IsReady}

-- The state that `AddRecord` ends in when the key is not in the cache.
abbrev after_miss : LruCache → LruCache → Text → Text → LruCache
after_miss c d key result = record d {
  result_list = (d.next_address, (key, result)) ∷ d.result_list;
  hash_map = insert unordered key d.next_address d.hash_map;
  next_address = suc d.next_address;
  pending_update_list = take c.cache_size ((key, result) ∷ c.pending_update_list);
}

take_pos : {A : Type 0} (n : ℕ) (x : A) (l : List A) → 0 < n → take n (x ∷ l) ≡ x ∷ take (n - 1) l
take_pos zero x l h = absurd (omega arith)
take_pos (suc n) x l h = let e : suc n - 1 ≡ n = omega arith in rw e refl

pop_back_full :
    (n : ℕ) (p : List (Text × Text)) → 0 < n → length p ≡ n → pop_back p ≡ ok (take (n - 1) p)
unfolding pop_back
pop_back_full n [] h e = absurd (omega arith)
pop_back_full n (x ∷ p) h e = ap ok (drop_last-take (n - 1) (x ∷ p) (omega arith))

pended_list :
    (n : ℕ) (p : List (Text × Text))
    → 0 < n
    → length p ≤ n
    → (if length p == n then pop_back p else ok p) ≡ ok (take (n - 1) p)
pended_list n p h le = elim (Bool-cases (length p == n)) [
  | inl full ↦ rw full (pop_back_full n p h ((nat_beq_iff _ _).0 full))
  | inr space ↦ rw space (ap ok (sym (take_of_length-le (n - 1) p (ground arith))))
]

pend-eq :
    (c d : LruCache) (key result : Text)
    → IsCoherent c
    → IsReady c key d
    → add_to_pending (add_front d key result) key result ≡ ok (after_miss c d key result)
unfolding add_to_pending add_front
pend-eq c d key result w r =
    let (size, next, same) = r.rest in
    let e : (if length d.pending_update_list == d.cache_size
          then pop_back d.pending_update_list
          else ok d.pending_update_list)
        ≡ ok (take (c.cache_size - 1) c.pending_update_list) =
      rw (size, same)
        (pended_list c.cache_size c.pending_update_list w.positive w.pending_bounded) in
    rw (e, take_pos c.cache_size (key, result) c.pending_update_list w.positive)

miss-eq :
    (c d : LruCache) (key result : Text)
    → IsCoherent c
    → find key c.hash_map ≡ none
    → make_room c ≡ ok d
    → IsReady c key d
    → add_record c key result ≡ ok (after_miss c d key result)
unfolding add_record
miss-eq c d key result w h m r = rw (h, m, add_record) (pend-eq c d key result w r)

mapped_miss :
    (c d : LruCache) (key result : Text)
    → IsReady c key d
    → (k : Text)
    → find k (after_miss c d key result).hash_map
      ≡ address_of k (after_miss c d key result).result_list
unfolding address_of
mapped_miss c d key result r k = ground (
  arith,
  find-insert unordered key k d.next_address d.hash_map,
  r.mapped key,
  r.mapped k,
  r.absent,
)

miss-IsRecorded :
    (c d : LruCache) (key result : Text)
    → IsCoherent c
    → address_of key c.result_list ≡ none
    → IsReady c key d
    → IsRecorded c key result (after_miss c d key result)
miss-IsRecorded c d key result w absent r = record {
  coherent = record {
    positive = omega (arith, w.positive, r.rest);
    linked = (
      omega arith,
      find_above d.next_address d.next_address d.result_list (omega arith) linked,
      r.absent,
      IsLinked-mono d.next_address (suc d.next_address) d.result_list (omega arith) linked,
    );
    bounded = omega (arith, r.room, r.rest);
    pending_bounded =
        omega (arith, length-take c.cache_size ((key, result) ∷ c.pending_update_list), r.rest);
    mapped = mapped_miss c d key result r;
  };
  same_size = r.rest.0;
  entries =
      rw (r.kept, erase_absent_key key c.result_list absent)
        (sym (take_pos c.cache_size (key, result) (contents c.result_list) w.positive));
  pending = rw (absent, pended);
}
  where
    linked : IsLinked d.next_address d.result_list
    linked = rw (r.rest.1) r.linked

-- On a coherent cache AddRecord meets no undefined behaviour and keeps it coherent; the entries
-- are then the new one and the most recent others, as many as fit, and a new key is pended as
-- well.
pub add_record-IsRecorded :
    (c : LruCache) (key result : Text)
    → IsCoherent c
    → (c' : LruCache) × (add_record c key result ≡ ok c') × IsRecorded c key result c'
add_record-IsRecorded c key result w = elim (Option-cases (address_of key c.result_list)) [
  | inl absent ↦
      let (d, m, r) = make_room-IsReady c key w absent in
      (
        after_miss c d key result,
        miss-eq c d key result w (w.mapped key ∙ absent) m r,
        miss-IsRecorded c d key result w absent r,
      )
  | inr (a, known) ↦
      let (v, found) = node_of_address c.next_address a key c.result_list w.linked known in
      (
        after_hit c key result a,
        hit-eq c key result v a (w.mapped key ∙ known) found,
        hit-IsRecorded c key result a w known,
      )
]
