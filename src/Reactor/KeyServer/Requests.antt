-- ===== src/Reactor/KeyServer/Requests.antt =====
-- What `OnMessage` of src/include/reactor/key_server.h and of src/include/reactor/web_server.h
-- makes of what a client sends.
use serach_engine.Base.{
  suc, ◌*◌, ◌<◌, ◌≡◌, refl, Text, false, Fault, ok, fault, List, ◌∷◌, ◌++◌, some, length,
}
use serach_engine.Reactor.KeyServer.{on_message}
use serach_engine.Reactor.SocketIo.Transfers.{IsPrompt}
use serach_engine.Reactor.SocketIo.{Reply, failed, read_line, read_line_loop}
use serach_engine.Reactor.TcpConnection.Messages.{IsMessage, receive-line, erase_last-ended}
use serach_engine.Reactor.TcpConnection.{c_string, receive, erase_last, is_closed}
use serach_engine.Reactor.WebServer

-- When a line without a line feed or a zero byte, of fewer than 65534 bytes, comes with its line
-- feed, and the kernel gives a byte or more in as many replies as ReadLine may need, OnMessage of
-- both servers makes a task with exactly that line and leaves what comes behind it.
pub on_message-line :
    (line rest : Text) (rs : List Reply)
    → IsMessage line
    → suc (length line) < 65535
    → IsPrompt (2 * suc (length line)) rs
    → (rs' : List Reply) × ((on_message (line ++ 10 ∷ rest) rs ≡ some (ok line, (rest, rs')))
        × (WebServer.on_message (line ++ 10 ∷ rest) rs ≡ some (ok line, (rest, rs'))))
unfolding on_message WebServer.on_message
on_message-line line rest rs m le h =
    let (rs', e) = receive-line line rest rs m le h in
    (
      rs',
      (
        rw (e, on_message, erase_last-ended line) refl,
        rw (e, WebServer.on_message, erase_last-ended line) refl,
      ),
    )

-- A failed recv does not count as a close, and OnMessage of both servers then throws out_of_range,
-- whatever is to come.
pub on_message-failed :
    (incoming : Text) (rs : List Reply)
    → (is_closed failed incoming ≡ false)
      × (on_message incoming (failed ∷ rs) ≡ some (fault Fault.out_of_range, (incoming, rs)))
      × (WebServer.on_message incoming (failed ∷ rs)
          ≡ some (fault Fault.out_of_range, (incoming, rs)))
unfolding on_message WebServer.on_message receive c_string read_line read_line_loop erase_last
    is_closed
on_message-failed incoming rs = (refl, refl, refl)
