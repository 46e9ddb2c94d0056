-- ===== src/Cache/Redis.antt =====
-- `RedisCache` of src/cache/redis.cc. The Redis client is a parameter: its calls, and in `IsRedis`
-- what the documentation of Redis says of them.
pub mod Laws
pub mod Memory
use serach_engine.Base.{
  ℕ, Text, bytes, Outcome, ok, fault, ◌>>=◌, [], Option, none, some, ◌≡◌, ◌<◌, if◌then◌else◌, ◌==◌,
  text_eq,
}
use serach_engine.Base.Int.{ℤ, pos}
use serach_engine.Common.Configuration.{Settings, setting}

-- The client: the database it is connected to, and the calls that the cache makes. A call may throw.
pub record RedisClient : Type 1 where
  pub Database : Type 0
  pub get : Text → Database → Option Text
  pub expire : Text → ℤ → Database → Outcome Database
  pub setex : Text → ℤ → Text → Database → Outcome Database
  -- Some time passes.
  pub lapse : ℕ → Database → Database

module _ (r : RedisClient) where
  -- `RedisCache::DoQuery`: the empty string stands for a miss.
  unfoldable pub do_query : ℤ → Text → r.Database → Outcome (Text × r.Database)
  do_query ttl key s = elim (r.get key s) [
    | some value ↦ do s' ← r.expire key ttl s; ok (value, s')
    | none ↦ ok ([], s)
  ]

  -- `RedisCache::AddData`.
  unfoldable pub add_data : ℤ → Text → Text → r.Database → Outcome r.Database
  add_data ttl key value s = r.setex key ttl value s

-- `_ttl`, from the constructor; `atoi` is the C library's.
unfoldable pub ttl_of : (Text → ℤ) → Settings → ℤ
ttl_of atoi config = atoi (setting config (bytes "redis.ttl"))
