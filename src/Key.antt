-- ===== src/Key.antt =====
-- The keyword service: src/key and src/include/key.
pub mod Dictionary
pub mod DictProducer
pub mod MyTimer
pub mod Recommander
