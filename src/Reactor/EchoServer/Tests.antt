-- ===== src/Reactor/EchoServer/Tests.antt =====
-- A line to the echo server of src/include/reactor/echo_server.h.
use serach_engine.Base.{◌≡◌, refl, List, [], ◌∷◌, some, arith}
use serach_engine.Reactor.EchoServer.Echo.{serve-line}
use serach_engine.Reactor.EchoServer.{serve}
use serach_engine.Reactor.SocketIo.{Reply, up_to, interrupted}

abbrev reads : List Reply
reads = up_to 1 ∷ interrupted ∷ up_to 9 ∷ up_to 9 ∷ up_to 9 ∷ []

serve-line_example :
    serve (97 ∷ 10 ∷ 98 ∷ []) reads (up_to 1 ∷ up_to 1 ∷ []) ≡ some (97 ∷ 10 ∷ [], 98 ∷ [])
serve-line_example =
    serve-line (97 ∷ []) (98 ∷ []) reads (up_to 1 ∷ up_to 1 ∷ []) (refl, refl, tt) (omega arith) tt
      tt
