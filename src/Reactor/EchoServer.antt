-- ===== src/Reactor/EchoServer.antt =====
-- `EchoServer` and its `MyTask` of src/include/reactor/echo_server.h. Its `Start` is not finished in
-- the source; this is what it would register.
pub mod Echo
mod Tests
use serach_engine.Base.{Text, bytes, List, [], ◌∷◌, ◌++◌, Option, none, some}
use serach_engine.Reactor.InetAddress.{Conversions, InetAddress}
use serach_engine.Reactor.SocketIo.{Reply}
use serach_engine.Reactor.TcpConnection.{receive, send, to_string}

-- `EchoServer::OnConnection` and `EchoServer::Onclose`: the lines that they print.
unfoldable pub on_connection : Conversions → InetAddress → InetAddress → Text
on_connection c local peer = to_string c local peer ++ bytes "has connected"

unfoldable pub on_close : Conversions → InetAddress → InetAddress → Text
on_close c local peer = to_string c local peer ++ bytes "has closed"

-- `EchoServer::OnMessage`: the line that it prints and the message of the task that it adds, and
-- what is left on the connection.
unfoldable pub on_message : Text → List Reply → Option ((Text × Text) × (Text × List Reply))
on_message incoming rs = elim (receive incoming rs) [
  | none ↦ none
  | some (msg, rest) ↦ some ((bytes "recv msg" ++ msg, msg), rest)
]

-- `MyTask::Process`: what it gives to `SendInLoop`.
unfoldable pub process : Text → Text
process msg = msg

-- A message from what comes to what goes out: `OnMessage`, its task and the functor of its
-- `SendInLoop`; and what is left on the connection.
unfoldable pub serve : Text → List Reply → List Reply → Option (Text × Text)
unfolding on_message process
serve incoming rs ws = elim (on_message incoming rs) [
  | none ↦ none
  | some ((line, msg), (rest, rs')) ↦ elim (send (process msg) ws) [
    | none ↦ none
    | some (sent, ws') ↦ some (sent, rest)
  ]
]
