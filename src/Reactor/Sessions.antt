-- ===== src/Reactor/Sessions.antt =====
-- The three callbacks of a server and where they go: from `SetAllCallback` of
-- src/include/reactor/tcp_server.h into the event loop of src/reactor/event_loop.cc, from there into
-- each new connection of src/reactor/tcp_connection.cc, and from the connection back to the server.
-- The epoll set and the descriptors' other uses are in Reactor/Connections.
pub mod Counts
pub mod Served
pub mod Starts
pub mod Balance
pub mod Servers
mod Tests
use serach_engine.Base.{
  ℕ, Text, Bool, Outcome, ok, fault, List, [], ◌∷◌, Option, none, some, if◌then◌else◌,
}
use serach_engine.Base.Int.{ℤ, int_eq, ltb_ℤ}
use serach_engine.Base.Maps.{find, insert, erase}
use serach_engine.Reactor.InetAddress.{InetAddress, SockaddrIn}
use serach_engine.Reactor.SocketIo.{Reply}
use serach_engine.Reactor.TcpConnection.{get_local_addr}

-- What the callbacks leave behind: the lines on `cout`, the calls of `Logger::Info` with their
-- format and argument, and the messages of the tasks that the pool was given.
pub record World : Type 0 where
  pub printed : List Text
  pub logged : List (Text × Text)
  pub tasks : List Text

-- What a callback reads of its connection: the two addresses, and what comes with the replies of
-- the kernel.
pub record Peer : Type 0 where
  pub local_addr : InetAddress
  pub peer_addr : InetAddress
  pub incoming : Text
  pub replies : List Reply

-- It may wait for ever, and it may throw.
abbrev pub Callback : Type 0
Callback = Peer → World → Option (Outcome World)

-- The three `function`s of a connection and of the loop, each of which may be empty.
pub record Callbacks : Type 0 where
  pub on_connection : Option Callback
  pub on_message : Option Callback
  pub on_close : Option Callback

abbrev pub no_callbacks : Callbacks
no_callbacks = record { on_connection = none; on_message = none; on_close = none }

pub record TcpConnection : Type 0 where
  pub callbacks : Callbacks
  pub local_addr : InetAddress
  pub peer_addr : InetAddress

-- `TcpConnection::TcpConnection`; `GetPeerAddr`, which no file defines, gives `peer_addr`.
unfoldable pub init : ℤ × SockaddrIn → InetAddress → TcpConnection
unfolding get_local_addr
init named peer_addr = record {
  callbacks = no_callbacks;
  local_addr = get_local_addr named;
  peer_addr = peer_addr;
}

-- `SetConnectionCallback`, `SetMessageCallback` and `SetCloseCallback` of a connection and of the
-- loop.
unfoldable pub set_connection_callback : Option Callback → Callbacks → Callbacks
set_connection_callback cb s = record s { on_connection = cb }

unfoldable pub set_message_callback : Option Callback → Callbacks → Callbacks
set_message_callback cb s = record s { on_message = cb }

unfoldable pub set_close_callback : Option Callback → Callbacks → Callbacks
set_close_callback cb s = record s { on_close = cb }

-- `TcpServer::SetAllCallback`.
unfoldable pub set_all_callback :
    Option Callback → Option Callback → Option Callback → Callbacks → Callbacks
unfolding set_connection_callback set_message_callback set_close_callback
set_all_callback on_connection on_message on_close s =
    set_close_callback on_close
      (set_message_callback on_message (set_connection_callback on_connection s))

-- `if (cb) cb(shared_from_this())`.
unfoldable pub call : Option Callback → Peer → World → Option (Outcome World)
call none peer w = some (ok w)
call (some cb) peer w = cb peer w

-- What a connection shows to a callback.
unfoldable pub peer_of : TcpConnection → Text → List Reply → Peer
peer_of con incoming rs = record {
  local_addr = con.local_addr;
  peer_addr = con.peer_addr;
  incoming = incoming;
  replies = rs;
}

-- `HandleConnectionCallback`, `HandleMessageCallback` and `HandleCloseCallback`.
unfoldable pub handle_connection_callback :
    TcpConnection → Text → List Reply → World → Option (Outcome World)
unfolding call
handle_connection_callback con incoming rs w =
    call con.callbacks.on_connection (peer_of con incoming rs) w

unfoldable pub handle_message_callback :
    TcpConnection → Text → List Reply → World → Option (Outcome World)
unfolding call
handle_message_callback con incoming rs w =
    call con.callbacks.on_message (peer_of con incoming rs) w

unfoldable pub handle_close_callback :
    TcpConnection → Text → List Reply → World → Option (Outcome World)
unfolding call
handle_close_callback con incoming rs w = call con.callbacks.on_close (peer_of con incoming rs) w

-- The loop's callbacks and connections, and what was left behind.
pub record Sessions : Type 0 where
  pub callbacks : Callbacks
  pub conns : List (ℤ × TcpConnection)
  pub world : World

-- The rest of a handler, once its callback has returned.
unfoldable pub returned : Option (Outcome World) → (World → Sessions) → Option (Outcome Sessions)
returned none after = none
returned (some (fault e)) after = some (fault e)
returned (some (ok w)) after = some (ok (after w))

-- A connection that `accept` gave, with what `getpeername` answers for it.
unfoldable pub handle_new_connection :
    ℤ → ℤ × SockaddrIn → InetAddress → Sessions → Option (Outcome Sessions)
unfolding init set_connection_callback set_message_callback set_close_callback
    handle_connection_callback returned
handle_new_connection peerfd named peer_addr s =
    let con = record (init named peer_addr) {
      callbacks = set_close_callback s.callbacks.on_close (
          set_message_callback s.callbacks.on_message
            (set_connection_callback s.callbacks.on_connection no_callbacks));
    } in
    returned (handle_connection_callback con [] [] s.world)
      (λ w. record s { conns = insert ltb_ℤ peerfd con s.conns; world = w })

-- `EventLoop::HandleMessage` on a descriptor, with what `IsClosed` finds and what there is to read.
unfoldable pub handle_message : ℤ → Bool → Text → List Reply → Sessions → Option (Outcome Sessions)
unfolding handle_message_callback handle_close_callback returned
handle_message fd is_closed incoming rs s = elim (find fd s.conns) [
  | none ↦ some (ok s)
  | some con ↦
      if is_closed
      then returned (handle_close_callback con incoming rs s.world)
          (λ w. record s { conns = erase fd s.conns; world = w })
      else returned (handle_message_callback con incoming rs s.world) (λ w. record s { world = w })
]

pub data Event : Type 0 where
  accepted : ℤ → ℤ × SockaddrIn → InetAddress → Event
  readable : ℤ → Bool → Text → List Reply → Event

unfoldable pub step : Event → Sessions → Option (Outcome Sessions)
unfolding handle_new_connection handle_message
step (accepted peerfd named peer_addr) s = handle_new_connection peerfd named peer_addr s
step (readable fd is_closed incoming rs) s = handle_message fd is_closed incoming rs s

-- The events in their order, up to one that throws or waits for ever.
unfoldable pub run : List Event → Sessions → Option (Outcome Sessions)
run [] s = some (ok s)
run (e ∷ es) s = elim (step e s) [
  | none ↦ none
  | some (fault f) ↦ some (fault f)
  | some (ok t) ↦ run es t
]
