-- ===== src/Cache/Redis/Laws.antt =====
-- What the cache of src/cache/redis.cc relies on, and what it then keeps.
use serach_engine.Base.{
  ℕ, suc, Text, Outcome, ok, [], none, some, ◌≡◌, ◌⊎◌, if◌then◌else◌, ◌==◌, text_eq, arith,
  same_iff, Option-cases, Bool-cases, refl, fault, inl, inr,
}
use serach_engine.Base.Int.{pos}
use serach_engine.Cache.Redis.{RedisClient, do_query, add_data}

-- The documented behaviour, for a positive time to live: `SETEX` sets one key, `EXPIRE` changes no
-- value, and as time passes keys may go but no value changes.
pub record IsRedis (r : RedisClient) : Type 0 where
  pub setex_sets :
      (key value : Text) (n : ℕ) (s : r.Database)
      → (t : r.Database) × ((r.setex key (pos (suc n)) value s ≡ ok t)
          × ((j : Text) → r.get j t ≡ (if key == j then some value else r.get j s)))
  pub expire_keeps :
      (key : Text) (n : ℕ) (s : r.Database)
      → (t : r.Database) × ((r.expire key (pos (suc n)) s ≡ ok t)
          × ((j : Text) → r.get j t ≡ r.get j s))
  pub lapse_drops :
      (n : ℕ) (s : r.Database) (j : Text)
      → (r.get j (r.lapse n s) ≡ none) ⊎ (r.get j (r.lapse n s) ≡ r.get j s)

module _ (r : RedisClient) (answer : Text → Outcome Text) where
  -- Every value is the answer to its key, or the empty string, which counts as no value.
  abbrev pub IsCoherent : r.Database → Type 0
  IsCoherent s = (k v : Text) → r.get k s ≡ some v → (v ≡ []) ⊎ (answer k ≡ ok v)

  pub lapse-IsCoherent :
      (n : ℕ) (s : r.Database) → IsRedis r → IsCoherent s → IsCoherent (r.lapse n s)
  lapse-IsCoherent n s l c k v h = elim (l.lapse_drops n s k) [
    | inl gone ↦ cc
    | inr kept ↦ c k v (ground (arith, kept))
  ]

  -- A lookup: the value of a coherent database, which stays coherent.
  abbrev pub IsFound : Text → Outcome (Text × r.Database) → Type 0
  IsFound key (fault e) = ⊥
  IsFound key (ok (v, t)) = IsCoherent t × ((v ≡ []) ⊎ (answer key ≡ ok v))

  pub do_query-IsFound :
      (n : ℕ) (key : Text) (s : r.Database)
      → IsRedis r
      → IsCoherent s
      → IsFound key (do_query r (pos (suc n)) key s)
  unfolding do_query
  do_query-IsFound n key s l c = elim (Option-cases (r.get key s)) [
    | inl miss ↦ rw (miss, do_query) (c, inl refl)
    | inr (v, hit) ↦
        let (t, (e, same_values)) = l.expire_keeps key n s in
        let kept : IsCoherent t = λ k w h. c k w (ground (arith, same_values k)) in
        rw (hit, do_query, e) (kept, c key v hit)
  ]

  -- Storing the answer keeps the database coherent.
  pub add_data-IsCoherent :
      (n : ℕ) (key value : Text) (s : r.Database)
      → IsRedis r
      → IsCoherent s
      → answer key ≡ ok value
      → (t : r.Database) × ((add_data r (pos (suc n)) key value s ≡ ok t) × IsCoherent t)
  unfolding add_data
  add_data-IsCoherent n key value s l c a =
      let (t, (e, sets)) = l.setex_sets key value n s in
      let kept : IsCoherent t = λ k w h. elim (Bool-cases (key == k)) [
        | inl same_key ↦ inr (ground (arith, sets k, same_iff key k))
        | inr other ↦ c k w (ground (arith, sets k))
      ] in
      (t, (e, kept))
