-- ===== src/Cache/Lru/Iterators.antt =====
-- The iterators in the hash map of src/cache/lru_cache.cc.
use serach_engine.Base.{
  ℕ, ◌<◌, ◌≡◌, refl, sym, ap, ◌∙◌, Text, bytes, ok, ◌>>=◌, OnOk, OnOk-ok, OnOk-fault, OnOk->>=,
  List, [], ◌∷◌, ◌++◌, none, some, length, if◌then◌else◌, ◌==◌, text_eq, nat_eq, same_iff, arith,
  Bool-cases, Option-cases, inl, inr, last?,
}
use serach_engine.Base.Maps.{find, unordered}
use serach_engine.Base.Unique.{IsUnique, put-IsUnique, insert-IsUnique, erase-IsUnique}
use serach_engine.Cache.Lru.History.{add_records-window}
use serach_engine.Cache.Lru.Links.{IsLinked, address_of, node_of_address}
use serach_engine.Cache.Lru.{
  LruCache, init, delete_rear, add_front, move_to_front, assign_front, pop_back, add_to_pending,
  add_record, add_records, print_results, print_keys, lru_test,
}

-- No key stands twice in the hash map.
abbrev IsKeyed : LruCache → Type 0
IsKeyed c = IsUnique c.hash_map

delete_rear-IsKeyed : (c : LruCache) → IsKeyed c → OnOk IsKeyed (delete_rear c)
unfolding delete_rear
delete_rear-IsKeyed c u = elim (Option-cases (last? c.result_list)) [
  | inl empty ↦ rw (empty, delete_rear) (OnOk-fault IsKeyed _)
  | inr ((address, (key, value)), e) ↦
      rw (e, delete_rear) (OnOk-ok IsKeyed _ (erase-IsUnique key c.hash_map u))
]

move_to_front-IsKeyed : (c : LruCache) (key : Text) → IsKeyed c → OnOk IsKeyed (move_to_front c key)
unfolding move_to_front
move_to_front-IsKeyed c key u = elim (Option-cases (find key c.hash_map)) [
  | inl absent ↦ rw (absent, move_to_front) (OnOk-fault IsKeyed _)
  | inr (it, found) ↦ elim (Option-cases (find it c.result_list)) [
    | inl gone ↦ rw (found, gone, move_to_front) (OnOk-fault IsKeyed _)
    | inr (tmp, node) ↦
        rw (found, node, move_to_front)
          (OnOk-ok IsKeyed _ (put-IsUnique unordered key c.next_address c.hash_map u))
  ]
]

add_to_pending-IsKeyed :
    (c : LruCache) (key value : Text) → IsKeyed c → OnOk IsKeyed (add_to_pending c key value)
unfolding add_to_pending
add_to_pending-IsKeyed c key value u =
    OnOk->>= (λ kept. Unit {0}) IsKeyed
      (if length c.pending_update_list == c.cache_size
        then pop_back c.pending_update_list
        else ok c.pending_update_list)
      (λ kept. ok (record c { pending_update_list = (key, value) ∷ kept })) (λ kept run. tt)
      (λ kept held. OnOk-ok IsKeyed (record c { pending_update_list = (key, value) ∷ kept }) u)

add_record-IsKeyed :
    (c : LruCache) (key result : Text) → IsKeyed c → OnOk IsKeyed (add_record c key result)
unfolding add_record add_front
add_record-IsKeyed c key result u = elim (Option-cases (find key c.hash_map)) [
  | inl absent ↦
      rw (absent, add_record)
        (OnOk->>= IsKeyed IsKeyed
          (if length c.result_list == c.cache_size then delete_rear c else ok c)
          (λ room. add_to_pending (add_front room key result) key result) room_is_keyed
          (λ room kept.
            add_to_pending-IsKeyed (add_front room key result) key result
              (insert-IsUnique unordered key room.next_address room.hash_map kept)))
  | inr (it, found) ↦
      rw (found, add_record)
        (OnOk->>= IsKeyed IsKeyed (move_to_front c key)
          (λ moved. do
            front ← assign_front result moved.result_list
            ok (record moved { result_list = front }))
          (move_to_front-IsKeyed c key u)
          (λ moved kept.
            OnOk->>= (λ front. Unit {0}) IsKeyed (assign_front result moved.result_list)
              (λ front. ok (record moved { result_list = front })) (λ front run. tt)
              (λ front held. OnOk-ok IsKeyed (record moved { result_list = front }) kept)))
]
  where
    room_is_keyed :
        OnOk IsKeyed (if length c.result_list == c.cache_size then delete_rear c else ok c)
    room_is_keyed = elim (Bool-cases (length c.result_list == c.cache_size)) [
      | inl full ↦ rw (full) (delete_rear-IsKeyed c u)
      | inr free ↦ rw (free) (OnOk-ok IsKeyed c u)
    ]

add_records-IsKeyed :
    (calls : List (Text × Text)) (c : LruCache) → IsKeyed c → OnOk IsKeyed (add_records c calls)
unfolding add_records
add_records-IsKeyed [] c u = OnOk-ok IsKeyed c u
add_records-IsKeyed ((key, result) ∷ rest) c u =
    OnOk->>= IsKeyed IsKeyed (add_record c key result) (λ d. add_records d rest)
      (add_record-IsKeyed c key result u) (λ d kept. add_records-IsKeyed rest d kept)

-- The keys as `LruTest` prints them: each with the key of its node, which is the same.
abbrev pub key_lines : List (Text × ℕ) → Text
key_lines [] = []
key_lines ((key, it) ∷ rest) = key ++ (bytes " " ++ (key ++ (bytes "\n" ++ key_lines rest)))

-- Where every key of the map finds its node, so does every entry.
print_keys-key_lines :
    (n : ℕ) (m : List (Text × ℕ)) (nodes : List (ℕ × (Text × Text)))
    → IsLinked n nodes
    → IsUnique m
    → ((k : Text) (a : ℕ) → find k m ≡ some a → address_of k nodes ≡ some a)
    → print_keys m nodes ≡ ok (key_lines m)
unfolding print_keys find
print_keys-key_lines n [] nodes l u h = refl
print_keys-key_lines n ((key, it) ∷ rest) nodes l u h =
    let here : find key ((key, it) ∷ rest) ≡ some it = ground (arith, (same_iff key key).1 refl) in
    let (value, found) = node_of_address n it key nodes l (h key it here) in
    let later = print_keys-key_lines n rest nodes l u.1 (λ k a e.
      h k a (elim (Bool-cases (key == k)) [
        | inl same_key ↦
            let absent : find k rest ≡ none =
              ap (λ j. find j rest) (sym ((same_iff key k).0 same_key)) ∙ u.0 in
            absurd (ground (arith, e, absent))
        | inr other ↦ rw (other, find) e
      ])) in
    rw (found, later, print_keys) refl

-- After any sequence of AddRecord calls on a cache of a positive size no iterator of the hash map
-- dangles: LruTest is defined, and prints the entries and then, for each key of the map, the key
-- and the key of its node, which are the same.
pub add_records-lru_test :
    (size : ℕ) (calls : List (Text × Text))
    → 0 < size
    → (c : LruCache) × (add_records (init size) calls ≡ ok c)
      × (lru_test c
          ≡ ok (
              print_results c.result_list
              ++ (bytes "\n" ++ (key_lines c.hash_map ++ bytes "\n\n\n"))))
unfolding lru_test init
add_records-lru_test size calls h =
    let (c, run, coherent, entries) = add_records-window size calls h in
    let unique = add_records-IsKeyed calls (init size) tt c run in
    let keys =
      print_keys-key_lines c.next_address c.hash_map c.result_list coherent.linked unique
        (λ k a e. sym (coherent.mapped k) ∙ e) in
    (c, run, rw (keys, lru_test) refl)
