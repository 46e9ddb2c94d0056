-- ===== src/Cache.antt =====
-- The result caches: src/cache and src/include/cache.
pub mod Lru
pub mod Redis
