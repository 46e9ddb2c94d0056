-- ===== src/Reactor/EchoServer/Echo.antt =====
-- What a client of src/include/reactor/echo_server.h gets back for a line.
use serach_engine.Base.{suc, ◌*◌, ◌<◌, ◌≡◌, refl, Text, List, [], ◌∷◌, ◌++◌, some, length}
use mathlib.Core.List.{append_assoc}
use serach_engine.Reactor.EchoServer.{on_message, process, serve}
use serach_engine.Reactor.SocketIo.Lines.{ended}
use serach_engine.Reactor.SocketIo.Transfers.{IsPrompt, writen-IsPrompt}
use serach_engine.Reactor.SocketIo.{Reply}
use serach_engine.Reactor.TcpConnection.Messages.{IsMessage, receive-line}
use serach_engine.Reactor.TcpConnection.{send}

-- When a line of the client has no line feed or zero byte and fewer than 65534 bytes, and the
-- kernel gives and takes a byte or more of it in as many replies as ReadLine and Writen may need,
-- the task for its message sends back exactly the line with its end, and what the client sent
-- behind the line is left on the connection.
pub serve-line :
    (line after : Text) (rs ws : List Reply)
    → IsMessage line
    → suc (length line) < 65535
    → IsPrompt (2 * suc (length line)) rs
    → IsPrompt (length (ended line)) ws
    → serve (ended line ++ after) rs ws ≡ some (ended line, after)
unfolding serve on_message process send
serve-line line after rs ws m le reads writes =
    let (rs', got) = receive-line line after rs m le reads in
    let (ws', wrote) = writen-IsPrompt (ended line) ws writes in
    rw (append_assoc line (10 ∷ []) after, got, wrote, serve, on_message, send) refl
