-- ===== src/Reactor/WebServer.antt =====
-- `WebServer` and its `MyTask` of src/include/reactor/web_server.h.
pub mod Answers
mod Tests
use serach_engine.Base.{
  ℕ, Bool, if◌then◌else◌, fault, Text, bytes, Outcome, ok, ◌>>=◌, List, [], ◌∷◌, ◌++◌, Option, none,
  some,
}
use serach_engine.Key.Dictionary.{Dictionary}
use serach_engine.Reactor.Acceptor as Acceptor
use serach_engine.Reactor.TcpServer.{start as start_server, TcpServer, Round}
use serach_engine.Reactor.ThreadPool.{
  ThreadPool, start_all, stop_test, stop_exit, stop_flag, stop_notify,
}
use serach_engine.Reactor.ThreadPool as ThreadPool
use serach_engine.Key.Recommander.{KeyRecommander, query, get_string}
use serach_engine.Reactor.SocketIo.{Reply}
use serach_engine.Reactor.TcpConnection.{receive, erase_last, send}
use serach_engine.Base.Int.{ℤ}
use serach_engine.Cache.Redis.{RedisClient}
use serach_engine.Web.Double.{Double}
use serach_engine.Web.Preprocessor.{Preprocessor}
use serach_engine.Web.Searcher

-- `WebServer::OnMessage`: what the task `WebPageSearcher` is to look for, or what it throws.
unfoldable pub on_message : Text → List Reply → Option (Outcome Text × (Text × List Reply))
on_message incoming rs = elim (receive incoming rs) [
  | none ↦ none
  | some (msg, rest) ↦ some (erase_last msg, rest)
]

-- `MyTask::Process`: the recommender, and the message that it gives to `SendInLoop`.
unfoldable pub process : Text → KeyRecommander → Outcome (KeyRecommander × Text)
process msg k = do
  asked ← query k msg
  ok ((get_string asked).1, bytes ">>>>>\n" ++ ((get_string asked).0 ++ bytes "<<<<<\n\n"))

-- A request from the line that comes to the bytes that go out: `OnMessage`, the task that it adds
-- (`WebPageSearcher::Process`), and the functor of its `SendInLoop`. `rs` are the replies to the
-- reads and `ws` those to the writes.
module _ (D : Double) (cut : Text → List (Text × ℕ)) (pre : Preprocessor D.Carrier)
    (r : RedisClient) (ttl : ℤ) where
  unfoldable pub serve :
      Text → List Reply → List Reply → r.Database → Option (Outcome (Text × r.Database))
  unfolding on_message
  serve incoming rs ws s = elim (on_message incoming rs) [
    | none ↦ none
    | some (fault e, rest) ↦ some (fault e)
    | some (ok sought, rest) ↦ elim (Searcher.process D cut pre r ttl sought s) [
      | fault e ↦ some (fault e)
      | ok (message, t) ↦ elim (send message ws) [
        | none ↦ none
        | some (sent, left) ↦ some (ok (sent, t))
      ]
    ]
  ]

-- The pool and the server of `WebServer`.
pub record WebServer : Type 0 where
  pub pool : ThreadPool
  pub server : TcpServer

-- `WebServer::Start`: the pool, and then the server until it leaves its loop. `rets` is what
-- `pthread_create` gives; the callbacks are in Reactor/Sessions.
unfoldable pub start :
    List ℕ → Acceptor.Answers → List Round → WebServer → Option (Outcome WebServer)
start rets answers rounds s = elim (ThreadPool.step (start_all rets) s.pool) [
  | none ↦ none
  | some pool ↦ some (do
    server ← start_server answers rounds s.server
    ok (record { pool = pool; server = server }))
]

-- `WebServer::stop`, as far as the pool: what `Stop` does once it finds the queue empty, before it
-- waits for the threads.
unfoldable pub stop : WebServer → Option WebServer
stop s = elim (ThreadPool.run (stop_test ∷ stop_exit ∷ stop_flag ∷ stop_notify ∷ []) s.pool) [
  | none ↦ none
  | some pool ↦ some (record s { pool = pool })
]

-- `Setting`, over the database of a Redis client.
pub record Setting (W Database : Type 0) : Type 0 where
  pub dict : Dictionary
  pub key_recommander : KeyRecommander
  pub page_lib_preprocessor : Preprocessor W
  pub cache : Database

-- What a move leaves of a dictionary, whose containers are then empty.
abbrev pub moved_from : Dictionary
moved_from = record { dict_en = []; dict_zh = []; index_en = []; index_zh = [] }

-- `Setting::Setting`. The recommender has a reference to a dictionary; `refers` is whether that is
-- the first argument, which the constructor moves away.
unfoldable pub setting :
    {W Database : Type 0}
    → Bool
    → Dictionary
    → KeyRecommander
    → Preprocessor W
    → Database
    → Setting W Database
setting refers dict kr plp cache = record {
  dict = dict;
  key_recommander = record kr { dictionary = if refers then moved_from else kr.dictionary };
  page_lib_preprocessor = plp;
  cache = cache;
}
