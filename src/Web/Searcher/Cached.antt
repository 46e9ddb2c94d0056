-- ===== src/Web/Searcher/Cached.antt =====
-- Searches of src/include/web/web_page_searcher.h through the cache, against searches without it.
use serach_engine.Base.{ℕ, suc, Text, Outcome, ok, fault, ◌>>=◌, List, [], ◌∷◌, ◌≡◌, refl, inl, inr}
use serach_engine.Base.Int.{pos}
use serach_engine.Cache.Redis.{RedisClient}
use serach_engine.Cache.Redis
use serach_engine.Cache.Redis.Laws.{
  IsRedis, IsCoherent, IsFound, do_query-IsFound, add_data-IsCoherent, lapse-IsCoherent,
}
use serach_engine.Web.Double.{Double}
use serach_engine.Web.Preprocessor.{Preprocessor}
use serach_engine.Web.Searcher.{Event, search, lapse, do_query, process, process_all}

module _ (D : Double) (cut : Text → List (Text × ℕ)) (pre : Preprocessor D.Carrier)
    (r : RedisClient) where
  -- The messages with no cache at all: a search that throws ends them.
  unfoldable pub answer_all : List (Event D cut pre) → Outcome (List Text)
  answer_all [] = ok []
  answer_all (search sought ∷ rest) = do
    message ← do_query D cut pre sought
    messages ← answer_all rest
    ok (message ∷ messages)
  answer_all (lapse n ∷ rest) = answer_all rest

  -- What one search gives: the answer, and a coherent database; or it throws as the answer does.
  abbrev pub IsAnswered : Outcome Text → Outcome (Text × r.Database) → Type 0
  IsAnswered a (fault e) = a ≡ fault e
  IsAnswered a (ok (v, t)) = (a ≡ ok v) × IsCoherent r (do_query D cut pre) t

  pub process-IsAnswered :
      (n : ℕ) (sought : Text) (s : r.Database)
      → IsRedis r
      → IsCoherent r (do_query D cut pre) s
      → IsAnswered (do_query D cut pre sought) (process D cut pre r (pos (suc n)) sought s)
  unfolding process
  process-IsAnswered n sought s l c =
      found (Redis.do_query r (pos (suc n)) sought s)
        (do_query-IsFound r (do_query D cut pre) n sought s l c)
    where
      stored :
          (a : Outcome Text) (s' : r.Database)
          → do_query D cut pre sought ≡ a
          → IsCoherent r (do_query D cut pre) s'
          → IsAnswered a (
              a >>= λ result.
              Redis.add_data r (pos (suc n)) sought result s' >>= λ t. ok (result, t))
      stored (fault e) s' h c' = refl
      stored (ok v) s' h c' =
          let (t, (e, kept)) = add_data-IsCoherent r (do_query D cut pre) n sought v s' l c' h in
          rw e (refl, kept)

      found :
          (o : Outcome (Text × r.Database))
          → IsFound r (do_query D cut pre) sought o
          → IsAnswered (do_query D cut pre sought) (
              o >>= λ (p : Text × r.Database). elim p.0 [
                | [] ↦ do_query D cut pre sought >>= λ result.
                    Redis.add_data r (pos (suc n)) sought result p.1 >>= λ t. ok (result, t)
                | c ∷ v ↦ ok (c ∷ v, p.1)
              ])
      found (fault e) h = absurd h
      found (ok ([], s')) (kept, h) = stored (do_query D cut pre sought) s' refl kept
      found (ok (x ∷ v, s')) (kept, inl h) = cc
      found (ok (x ∷ v, s')) (kept, inr h) = (h, kept)

  -- With a Redis that keeps what its documentation says and a database that holds only answers of
  -- the same pages, any sequence of searches and of time that passes gives exactly the messages,
  -- or the exception, that the searches give without a cache.
  pub process_all-answer_all :
      (n : ℕ) (es : List (Event D cut pre)) (s : r.Database)
      → IsRedis r
      → IsCoherent r (do_query D cut pre) s
      → process_all D cut pre r (pos (suc n)) es s ≡ answer_all es
  unfolding process_all answer_all
  process_all-answer_all n [] s l c = refl
  process_all-answer_all n (search sought ∷ rest) s l c =
      each (do_query D cut pre sought) (process D cut pre r (pos (suc n)) sought s)
        (process-IsAnswered n sought s l c) (λ t. process_all-answer_all n rest t l)
    where
      each :
          (a : Outcome Text) (o : Outcome (Text × r.Database))
          → IsAnswered a o
          → ((t : r.Database)
              → IsCoherent r (do_query D cut pre) t
              → process_all D cut pre r (pos (suc n)) rest t ≡ answer_all rest)
          → (o >>= λ (p : Text × r.Database).
              process_all D cut pre r (pos (suc n)) rest p.1 >>= λ ms. ok (p.0 ∷ ms))
            ≡ (a >>= λ m. answer_all rest >>= λ ms. ok (m ∷ ms))
      each a (fault e) h f = rw h refl
      each a (ok (v, t)) (h, kept) f = rw (h, f t kept) refl
  process_all-answer_all n (lapse k ∷ rest) s l c =
      process_all-answer_all n rest (r.lapse k s) l
        (lapse-IsCoherent r (do_query D cut pre) k s l c)
