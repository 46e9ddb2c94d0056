-- ===== src/Cache/Redis/Memory.antt =====
-- A Redis in memory, for runs of the code of src/cache/redis.cc.
use serach_engine.Base.{Text, List, [], refl, ok, inl, text_eq}
use serach_engine.Base.Maps.{find, put, find-put, unordered}
use serach_engine.Cache.Redis.Laws.{IsRedis}
use serach_engine.Cache.Redis.{RedisClient}

-- All keys go as soon as time passes.
abbrev pub memory : RedisClient
memory = record {
  Database = List (Text × Text);
  get = find;
  expire = λ key ttl s. ok s;
  setex = λ key ttl value s. ok (put unordered key value s);
  lapse = λ n s. [];
}

pub memory-IsRedis : IsRedis memory
unfolding find
memory-IsRedis = record {
  setex_sets =
      λ key value n s. (put unordered key value s, (refl, λ j. find-put unordered key j value s));
  expire_keeps = λ key n s. (s, (refl, λ j. refl));
  lapse_drops = λ n s j. inl refl;
}
