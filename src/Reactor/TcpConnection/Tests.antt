-- ===== src/Reactor/TcpConnection/Tests.antt =====
-- Connections of src/reactor/tcp_connection.cc.
use serach_engine.Base.{[], ◌∷◌, ◌≡◌, refl, some}
use serach_engine.Reactor.SocketIo.{up_to, read_line, read_line_loop, readn, readn_loop, line_end}
use serach_engine.Reactor.TcpConnection.{c_string, receive}

-- What stands behind a zero is lost.
receive_zero : receive (97 ∷ 0 ∷ 98 ∷ 10 ∷ []) (up_to 9 ∷ up_to 9 ∷ []) ≡ some (97 ∷ [], ([], []))
unfolding receive c_string read_line read_line_loop readn readn_loop line_end
receive_zero = refl
