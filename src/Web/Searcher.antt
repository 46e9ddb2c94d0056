-- ===== src/Web/Searcher.antt =====
-- `WebPageSearcher` of src/web/web_page_searcher.cc and src/include/web/web_page_searcher.h: the
-- task that answers one search through the Redis cache.
pub mod Cached
mod Tests
use serach_engine.Base.{ℕ, Text, Outcome, ok, ◌>>=◌, List, [], ◌∷◌}
use serach_engine.Base.Int.{ℤ}
use serach_engine.Cache.Redis.{RedisClient}
use serach_engine.Cache.Redis
use serach_engine.Web.Double.{Double}
use serach_engine.Web.Preprocessor.{Preprocessor}
use serach_engine.Web.Query

module _ (D : Double) (cut : Text → List (Text × ℕ)) (pre : Preprocessor D.Carrier) where
  -- `WebPageSearcher::DoQuery`.
  unfoldable pub do_query : Text → Outcome Text
  do_query sought = Query.do_query D cut pre sought

  -- `WebPageSearcher::Process`: the message that it gives to `SendInLoop`, and the database.
  unfoldable pub process : (r : RedisClient) → ℤ → Text → r.Database → Outcome (Text × r.Database)
  unfolding do_query
  process r ttl sought s = do
    (cached, s') ← Redis.do_query r ttl sought s
    elim cached [
      | [] ↦ do result ← do_query sought; t ← Redis.add_data r ttl sought result s'; ok (result, t)
      | c ∷ v ↦ ok (c ∷ v, s')
    ]

  -- What comes to the server: a search, or time that passes.
  pub data Event : Type 0 where
    search : Text → Event
    lapse : ℕ → Event

  -- The messages of one event after the other.
  unfoldable pub process_all : (r : RedisClient) → ℤ → List Event → r.Database → Outcome (List Text)
  unfolding process
  process_all r ttl [] s = ok []
  process_all r ttl (search sought ∷ rest) s = do
    (message, t) ← process r ttl sought s
    messages ← process_all r ttl rest t
    ok (message ∷ messages)
  process_all r ttl (lapse n ∷ rest) s = process_all r ttl rest (r.lapse n s)
