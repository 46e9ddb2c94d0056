-- ===== src/Reactor/KeyServer.antt =====
-- `KeyServer` and its `MyTask` of src/include/reactor/key_server.h.
pub mod Repeats
pub mod Requests
mod Tests
use serach_engine.Base.{ℕ}
use serach_engine.Reactor.Acceptor.{Answers}
use serach_engine.Reactor.TcpServer.{start as start_server, TcpServer, Round}
use serach_engine.Reactor.ThreadPool.{
  ThreadPool, start_all, stop_test, stop_exit, stop_flag, stop_notify,
}
use serach_engine.Reactor.ThreadPool as ThreadPool
use serach_engine.Base.{Text, bytes, Outcome, ok, ◌>>=◌, List, [], ◌∷◌, ◌++◌, Option, none, some}
use serach_engine.Base.Int.{ℤ}
use serach_engine.Cache.Redis.{RedisClient, do_query, add_data}
use serach_engine.Key.Recommander.{KeyRecommander, query, get_string}
use serach_engine.Reactor.SocketIo.{Reply}
use serach_engine.Reactor.TcpConnection.{receive, erase_last}

-- `KeyServer::OnMessage`: the message of the task that it adds, or what it throws; and what is
-- left on the connection.
unfoldable pub on_message : Text → List Reply → Option (Outcome Text × (Text × List Reply))
on_message incoming rs = elim (receive incoming rs) [
  | none ↦ none
  | some (msg, rest) ↦ some (erase_last msg, rest)
]

-- The answer as it is stored.
unfoldable pub render : Text → Text
render words = bytes ">>>>>\n" ++ (words ++ bytes "<<<<<\n\n")

-- `MyTask::Process`: the recommender and the database; it sends nothing.
unfoldable pub process :
    (r : RedisClient)
    → ℤ
    → Text
    → KeyRecommander
    → r.Database
    → Outcome (KeyRecommander × r.Database)
unfolding render
process r ttl msg k s = do
  (cached, s') ← do_query r ttl msg s
  elim cached [
    | [] ↦ do
      asked ← query k msg
      t ← add_data r ttl msg (render (get_string asked).0) s'
      ok ((get_string asked).1, t)
    | c ∷ v ↦ ok (k, s')
  ]

-- The pool and the server of `KeyServer`.
pub record KeyServer : Type 0 where
  pub pool : ThreadPool
  pub server : TcpServer

-- `KeyServer::Start`: the pool, and then the server until it leaves its loop. `rets` is what
-- `pthread_create` gives.
unfoldable pub start : List ℕ → Answers → List Round → KeyServer → Option (Outcome KeyServer)
start rets answers rounds s = elim (ThreadPool.step (start_all rets) s.pool) [
  | none ↦ none
  | some pool ↦ some (do
    server ← start_server answers rounds s.server
    ok (record { pool = pool; server = server }))
]

-- `KeyServer::Stop`, as far as the pool: what `Stop` does once it finds the queue empty, before it
-- waits for the threads.
unfoldable pub stop : KeyServer → Option KeyServer
stop s = elim (ThreadPool.run (stop_test ∷ stop_exit ∷ stop_flag ∷ stop_notify ∷ []) s.pool) [
  | none ↦ none
  | some pool ↦ some (record s { pool = pool })
]
