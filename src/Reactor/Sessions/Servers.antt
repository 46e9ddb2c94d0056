-- ===== src/Reactor/Sessions/Servers.antt =====
-- The callbacks of `WebServer` of src/include/reactor/web_server.h and of `KeyServer` of
-- src/include/reactor/key_server.h. A call of the logger is its format, without the prefix of the
-- macro, and its argument.
use serach_engine.Base.{Text, bytes, Outcome, ok, fault, List, [], ◌∷◌, ◌++◌, Option, none, some}
use serach_engine.Reactor.InetAddress.{Conversions}
use serach_engine.Reactor.KeyServer as KeyServer
use serach_engine.Reactor.Sessions.{World, Callback, Callbacks, set_all_callback, no_callbacks}
use serach_engine.Reactor.SocketIo.{Reply}
use serach_engine.Reactor.TcpConnection.{to_string}
use serach_engine.Reactor.WebServer as WebServer

-- `LOG_INFO`.
unfoldable pub log_info : Text → Text → World → World
log_info format msg w = record w { logged = w.logged ++ (format, msg) ∷ [] }

-- `cout << text << endl`.
unfoldable pub print_line : Text → World → World
print_line line w = record w { printed = w.printed ++ line ∷ [] }

-- The rest of `OnMessage`, with the message that `Receive` and `erase` left.
unfoldable pub add_message :
    Option (Outcome Text × (Text × List Reply)) → World → Option (Outcome World)
unfolding print_line
add_message none w = none
add_message (some (fault e, rest)) w = some (fault e)
add_message (some (ok msg, rest)) w =
    let t = print_line (bytes "recv msg " ++ msg) w in
    some (ok (record t { tasks = t.tasks ++ msg ∷ [] }))

module _ (c : Conversions) where
  -- `WebServer::OnConnection`.
  unfoldable pub web_on_connection : Callback
  unfolding log_info
  web_on_connection peer w = some (
      ok (
        log_info (bytes "Connection message: {}")
          (to_string c peer.local_addr peer.peer_addr ++ bytes " has connected") w))

  -- `WebServer::OnMessage`, with the task that it adds.
  unfoldable pub web_on_message : Callback
  unfolding add_message
  web_on_message peer w = add_message (WebServer.on_message peer.incoming peer.replies) w

  -- `WebServer::OnClose`.
  unfoldable pub web_on_close : Callback
  unfolding log_info
  web_on_close peer w = some (
      ok (
        log_info (bytes "Close message: {}")
          (to_string c peer.local_addr peer.peer_addr ++ bytes " has closed") w))

  -- The callbacks after `WebServer::Start`.
  unfoldable pub web_callbacks : Callbacks
  unfolding set_all_callback
  web_callbacks =
      set_all_callback (some web_on_connection) (some web_on_message) (some web_on_close)
        no_callbacks

  -- `KeyServer::OnConnection`.
  unfoldable pub key_on_connection : Callback
  unfolding log_info print_line
  key_on_connection peer w =
      let line = to_string c peer.local_addr peer.peer_addr ++ bytes " has connected" in
      some (ok (log_info (bytes "connection message: {}") line (print_line line w)))

  -- `KeyServer::OnMessage`.
  unfoldable pub key_on_message : Callback
  unfolding add_message
  key_on_message peer w = add_message (KeyServer.on_message peer.incoming peer.replies) w

  -- `KeyServer::OnClose`.
  unfoldable pub key_on_close : Callback
  unfolding log_info print_line
  key_on_close peer w =
      let line = to_string c peer.local_addr peer.peer_addr ++ bytes " has closed" in
      some (ok (log_info (bytes "close message: {}") line (print_line line w)))

  -- The callbacks after `KeyServer::Start`.
  unfoldable pub key_callbacks : Callbacks
  unfolding set_all_callback
  key_callbacks =
      set_all_callback (some key_on_connection) (some key_on_message) (some key_on_close)
        no_callbacks
