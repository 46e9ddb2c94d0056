-- ===== src/Cache/Lru/Tests.antt =====
-- Runs of the cache of src/cache/lru_cache.cc.
use mathlib.Core.List.{foldl}
use serach_engine.Cache.Lru.Iterators.{key_lines, add_records-lru_test}
use serach_engine.Base.{◌≡◌, bytes, ◌++◌, Text, ok, List, [], ◌∷◌, take, arith}
use serach_engine.Cache.Lru.History.{note, add_records-window}
use serach_engine.Cache.Lru.Links.{contents}
use serach_engine.Cache.Lru.Coherence.{IsCoherent}
use serach_engine.Cache.Lru.{LruCache, init, add_records, lru_test, print_results}

-- Four records, the first key twice.
abbrev calls : List (Text × Text)
calls = (97 ∷ [], 49 ∷ []) ∷ (98 ∷ [], 50 ∷ []) ∷ (97 ∷ [], 51 ∷ []) ∷ (99 ∷ [], 52 ∷ []) ∷ []

add_records-window_example :
    (c : LruCache) × (add_records (init 2) calls ≡ ok c)
    × IsCoherent c
    × (contents c.result_list ≡ take 2 (foldl note [] calls))
add_records-window_example = add_records-window 2 calls (omega arith)

add_records-lru_test_example :
    (c : LruCache) × (add_records (init 2) calls ≡ ok c)
    × (lru_test c
        ≡ ok (
            print_results c.result_list
            ++ (bytes "\n" ++ (key_lines c.hash_map ++ bytes "\n\n\n"))))
add_records-lru_test_example = add_records-lru_test 2 calls (omega arith)
