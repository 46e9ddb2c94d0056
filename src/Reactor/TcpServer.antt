-- ===== src/Reactor/TcpServer.antt =====
-- `TcpServer` of src/include/reactor/tcp_server.h: the acceptor and the event loop. The answers of
-- the kernel, and when another thread calls `Stop`, are in the arguments.
use serach_engine.Base.{Bool, Outcome, ok, ◌>>=◌, List, [], ◌∷◌, if◌then◌else◌}
use serach_engine.Base.Int.{ℤ}
use serach_engine.Reactor.Acceptor.{Acceptor, Answers, ready}
use serach_engine.Reactor.Acceptor as Acceptor
use serach_engine.Reactor.Connections.{Loop, Poll, wait_epoll_fd}
use serach_engine.Reactor.Connections as Connections

pub record TcpServer : Type 0 where
  pub acceptor : Acceptor
  pub loop : Loop

-- The constructor, where the socket and the event descriptor get these descriptors and epoll takes
-- them or not.
unfoldable pub init : Bool → Bool → ℤ → ℤ → TcpServer
init acceptor_adds evtfd_adds fd evtfd = record {
  acceptor = Acceptor.init;
  loop = Connections.init acceptor_adds evtfd_adds fd evtfd;
}

-- A round of `EventLoop::Loop`: what `epoll_wait` gives, and whether `Unloop` is called before the
-- next test of `_is_looping`.
pub record Round : Type 0 where
  pub poll : Poll
  pub unloop : Bool

-- `EventLoop::Loop`, which `Unloop` ends.
unfoldable pub loop : List Round → Loop → Outcome Loop
loop [] s = ok s
loop (round ∷ rounds) s = do
  t ← wait_epoll_fd round.poll s
  let rest = loop rounds t in if round.unloop then ok t else rest

-- `TcpServer::Start`; the result of `Ready` is not looked at.
unfoldable pub start : Answers → List Round → TcpServer → Outcome TcpServer
unfolding loop
start answers rounds s =
    let (ret, acceptor) = ready answers s.acceptor in
    do t ← loop rounds s.loop; ok (record { acceptor = acceptor; loop = t })
