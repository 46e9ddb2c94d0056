-- ===== src/Reactor/WebServer/Answers.antt =====
-- What a client of src/include/reactor/web_server.h gets back.
use serach_engine.Base.{
  ℕ, suc, ◌*◌, ◌<◌, ◌≡◌, refl, sym, ap, Text, Outcome, fault, ok, List, ◌∷◌, ◌++◌, some, length,
}
use serach_engine.Base.Int.{pos}
use serach_engine.Cache.Redis.Laws.{IsRedis, IsCoherent}
use serach_engine.Cache.Redis.{RedisClient}
use serach_engine.Reactor.KeyServer.Requests.{on_message-line}
use serach_engine.Reactor.SocketIo.Transfers.{IsPrompt, writen-IsPrompt}
use serach_engine.Reactor.SocketIo.{Reply}
use serach_engine.Reactor.TcpConnection.Messages.{IsMessage}
use serach_engine.Reactor.TcpConnection.{send}
use serach_engine.Reactor.WebServer.{serve}
use serach_engine.Web.Double.{Double}
use serach_engine.Web.Preprocessor.{Preprocessor}
use serach_engine.Web.Searcher
use serach_engine.Web.Searcher.Cached.{IsAnswered, process-IsAnswered}

module _ (D : Double) (cut : Text → List (Text × ℕ)) (pre : Preprocessor D.Carrier)
    (r : RedisClient) where
  -- A search with an answer returns it.
  answered-ok :
      (answer : Text) (o : Outcome (Text × r.Database))
      → IsAnswered D cut pre r (ok answer) o
      → (t : r.Database) × (o ≡ ok (answer, t)) × IsCoherent r (Searcher.do_query D cut pre) t
  answered-ok answer (fault e) h = cc
  answered-ok answer (ok (v, t)) (h, kept) =
      let same_answer : answer ≡ v = cc in (t, ap (λ a. ok (a, t)) (sym same_answer), kept)

  -- A client of the web server that sends a line without a line feed or a zero byte, of fewer than
  -- 65534 bytes, and then a line feed, gets the answer of the search for that line, all of it and
  -- nothing else, whether it was in the cache or not, and the database stays coherent; this needs
  -- a Redis that keeps what its documentation says, a coherent database, a search that has an
  -- answer, and a kernel that gives or takes a byte or more in as many replies as ReadLine and
  -- Writen may need.
  pub serve-answer :
      (n : ℕ) (line rest answer : Text) (rs ws : List Reply) (s : r.Database)
      → IsRedis r
      → IsCoherent r (Searcher.do_query D cut pre) s
      → IsMessage line
      → suc (length line) < 65535
      → IsPrompt (2 * suc (length line)) rs
      → Searcher.do_query D cut pre line ≡ ok answer
      → IsPrompt (length answer) ws
      → (t : r.Database) × (serve D cut pre r (pos (suc n)) (line ++ 10 ∷ rest) rs ws s
          ≡ some (ok (answer, t)))
        × IsCoherent r (Searcher.do_query D cut pre) t
  unfolding serve send
  serve-answer n line rest answer rs ws s l c m le reads found writes =
      let (rs', both) = on_message-line line rest rs m le reads in
      let (ws', wrote) = writen-IsPrompt answer ws writes in
      let answered : IsAnswered D cut pre r (ok answer)
          (Searcher.process D cut pre r (pos (suc n)) line s) =
        rw (found) at (process-IsAnswered D cut pre r n line s l c) in
      let (t, processed, kept) =
        answered-ok answer (Searcher.process D cut pre r (pos (suc n)) line s) answered in
      (t, rw (serve, both.1, processed, send, wrote) refl, kept)
