-- ===== src/Reactor/Sessions/Tests.antt =====
-- A client of the servers of src/include/reactor/web_server.h that comes and goes.
use serach_engine.Base.{bytes, true, List, [], ◌∷◌}
use serach_engine.Base.Int.{pos}
use serach_engine.Reactor.InetAddress.{Conversions, SockaddrIn}
use serach_engine.Reactor.Sessions.Starts.{begun}
use serach_engine.Reactor.Sessions.Balance.{run-IsBalanced}
use serach_engine.Reactor.Sessions.Served.{OnReturn, IsBalanced}
use serach_engine.Reactor.Sessions.Servers.{web_callbacks, key_callbacks}
use serach_engine.Reactor.Sessions.{Event, accepted, readable, run}
use serach_engine.Streams.{print_nat}

-- Conversions that keep numbers as they are, and read every address as 1.
abbrev plain : Conversions
plain = record { htons = λ n. n; ntohs = λ n. n; inet_addr = λ s. 1; inet_ntoa = print_nat }

abbrev client : SockaddrIn
client = record { sin_family = 2; sin_port = 80; sin_addr = 1 }

abbrev visit : List Event
visit =
    accepted (pos 7) (pos 0, client) (record { addr = client }) ∷ readable (pos 7) true [] [] ∷ []

run-IsBalanced_example :
    OnReturn
      (IsBalanced plain
        (bytes "Connection message: {}")
        (bytes "Close message: {}")
        (bytes "1:80--->1:80"))
      (run visit (begun (web_callbacks plain)))
    × OnReturn
        (IsBalanced plain
          (bytes "connection message: {}")
          (bytes "close message: {}")
          (bytes "1:80--->1:80"))
        (run visit (begun (key_callbacks plain)))
run-IsBalanced_example = run-IsBalanced plain visit (bytes "1:80--->1:80")
