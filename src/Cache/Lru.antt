-- ===== src/Cache/Lru.antt =====
-- `LruCache` of src/cache/lru_cache.cc and src/include/cache/lru_cache.h. A node of the result
-- list has an address, and an iterator is that address; the addresses given out are counted up.
-- `cache_size` is the `int` after its conversion to `size_t` in the comparisons.
pub mod Links
pub mod Coherence
pub mod Hits
pub mod Room
pub mod Refines
pub mod History
pub mod Iterators
mod Tests
use serach_engine.Base.{
  ℕ, zero, suc, Text, Outcome, Fault, ok, fault, ◌>>=◌, List, [], ◌∷◌, none, some, length, last?,
  bytes, ◌++◌, drop_last, if◌then◌else◌, ◌==◌, text_eq, nat_eq,
}
use serach_engine.Base.Maps.{find, put, insert, erase, unordered}

pub record LruCache : Type 0 where
  pub result_list : List (ℕ × (Text × Text))
  pub hash_map : List (Text × ℕ)
  pub pending_update_list : List (Text × Text)
  pub cache_size : ℕ
  pub next_address : ℕ

-- `LruCache::LruCache`.
pub init : ℕ → LruCache
init cache_size = record {
  result_list = [];
  hash_map = [];
  pending_update_list = [];
  cache_size = cache_size;
  next_address = 0;
}

-- `LruCache::DeleteRear`: `back()` of an empty list is undefined.
pub delete_rear : LruCache → Outcome LruCache
delete_rear c = elim (last? c.result_list) [
  | none ↦ fault Fault.undefined
  | some (address, (key, value)) ↦
      ok (record c { result_list = drop_last c.result_list; hash_map = erase key c.hash_map })
]

-- `LruCache::AddFront`.
pub add_front : LruCache → Text → Text → LruCache
add_front c key value = record c {
  result_list = (c.next_address, (key, value)) ∷ c.result_list;
  hash_map = insert unordered key c.next_address c.hash_map;
  next_address = suc c.next_address;
}

-- `LruCache::MoveToFront`: a missing key gives a singular iterator, and a dangling one has no node.
pub move_to_front : LruCache → Text → Outcome LruCache
move_to_front c key = elim (find key c.hash_map) [
  | none ↦ fault Fault.undefined
  | some it ↦ elim (find it c.result_list) [
    | none ↦ fault Fault.undefined
    | some tmp ↦ ok (record c {
      result_list = (c.next_address, tmp) ∷ erase it c.result_list;
      hash_map = put unordered key c.next_address c.hash_map;
      next_address = suc c.next_address;
    })
  ]
]

-- `_result_list.begin()->second = result`.
assign_front : Text → List (ℕ × (Text × Text)) → Outcome (List (ℕ × (Text × Text)))
assign_front result [] = fault Fault.undefined
assign_front result ((address, (key, value)) ∷ l) = ok ((address, (key, result)) ∷ l)

-- `list::pop_back`: of an empty list it is undefined.
pop_back : List (Text × Text) → Outcome (List (Text × Text))
pop_back [] = fault Fault.undefined
pop_back (e ∷ l) = ok (drop_last (e ∷ l))

-- `LruCache::AddToPending`.
pub add_to_pending : LruCache → Text → Text → Outcome LruCache
unfolding pop_back
add_to_pending c key value = do
  kept ←
      if length c.pending_update_list == c.cache_size
      then pop_back c.pending_update_list
      else ok c.pending_update_list
  ok (record c { pending_update_list = (key, value) ∷ kept })

-- `LruCache::AddRecord`.
pub add_record : LruCache → Text → Text → Outcome LruCache
unfolding assign_front
add_record c key result = elim (find key c.hash_map) [
  | some it ↦ do
    moved ← move_to_front c key
    front ← assign_front result moved.result_list
    ok (record moved { result_list = front })
  | none ↦ do
    room ← if length c.result_list == c.cache_size then delete_rear c else ok c
    add_to_pending (add_front room key result) key result
]

-- A sequence of `AddRecord` calls.
pub add_records : LruCache → List (Text × Text) → Outcome LruCache
add_records c [] = ok c
add_records c ((key, result) ∷ rest) = do c' ← add_record c key result; add_records c' rest

-- The first loop of `LruCache::LruTest`.
unfoldable pub print_results : List (ℕ × (Text × Text)) → Text
print_results [] = []
print_results ((address, (key, value)) ∷ rest) =
    key ++ (bytes " " ++ (value ++ (bytes "\n" ++ print_results rest)))

-- The second loop: an iterator whose node is gone is undefined.
unfoldable pub print_keys : List (Text × ℕ) → List (ℕ × (Text × Text)) → Outcome Text
print_keys [] nodes = ok []
print_keys ((key, it) ∷ rest) nodes = elim (find it nodes) [
  | none ↦ fault Fault.undefined
  | some (name, value) ↦ do
    after ← print_keys rest nodes
    ok (key ++ (bytes " " ++ (name ++ (bytes "\n" ++ after))))
]

-- `LruCache::LruTest`: what it prints.
unfoldable pub lru_test : LruCache → Outcome Text
unfolding print_results print_keys
lru_test c = do
  keys ← print_keys c.hash_map c.result_list
  ok (print_results c.result_list ++ (bytes "\n" ++ (keys ++ bytes "\n\n\n")))
