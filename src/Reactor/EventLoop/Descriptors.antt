-- ===== src/Reactor/EventLoop/Descriptors.antt =====
-- The two descriptors of `EventLoop` of src/reactor/event_loop.cc, from the constructor to the
-- destructor. What the kernel answers is in the arguments; `perror` gives its argument.
use serach_engine.Base.{Text, bytes, Bool, true, false, List, [], ◌∷◌, if◌then◌else◌, ◌==◌, ◌++◌}
use serach_engine.Base.Int.{ℤ, pos, negsuc, int_eq}
use serach_engine.Reactor.Socket.{close}

pub record Descriptors : Type 0 where
  pub epfd : ℤ
  pub evtfd : ℤ
  pub is_looping : Bool

-- `EventLoop::CreateEpollFd`, where `epoll_create` gives `fd`.
unfoldable pub create_epoll_fd : ℤ → ℤ × List Text
create_epoll_fd fd = (fd, if fd == negsuc 0 then bytes "epoll_create" ∷ [] else [])

-- `EventLoop::CreateEventFd`, where `eventfd` gives `fd`.
unfoldable pub create_event_fd : ℤ → ℤ × List Text
create_event_fd fd = (fd, if fd == negsuc 0 then bytes "eventfd" ∷ [] else [])

-- The members of the constructor: an error does not stop it.
unfoldable pub make : ℤ → ℤ → Descriptors × List Text
unfolding create_epoll_fd create_event_fd
make epoll_ret event_ret =
    let (epfd, epoll_errors) = create_epoll_fd epoll_ret in
    let (evtfd, event_errors) = create_event_fd event_ret in
    (record { epfd = epfd; evtfd = evtfd; is_looping = false }, epoll_errors ++ event_errors)

-- `EventLoop::Loop` up to its loop, and `EventLoop::Unloop`.
unfoldable pub begin_loop : Descriptors → Descriptors
begin_loop s = record s { is_looping = true }

unfoldable pub unloop : Descriptors → Descriptors
unloop s = record s { is_looping = false }

-- `EventLoop::WakeUp` and `EventLoop::HandleRead`, where `write` and `read` give `ret`.
unfoldable pub wake_up : ℤ → ℤ × List Text
wake_up ret = (ret, if ret == pos 8 then [] else bytes "write" ∷ [])

unfoldable pub handle_read : ℤ → ℤ × List Text
handle_read ret = (ret, if ret == pos 8 then [] else bytes "read" ∷ [])

-- `if (fd) close(fd)`.
unfoldable pub close_if_set : ℤ → List ℤ → List ℤ
close_if_set fd descriptors = if fd == pos 0 then descriptors else close fd descriptors

-- `EventLoop::~EventLoop`: the descriptors that are open after it.
unfoldable pub destroy : Descriptors → List ℤ → List ℤ
unfolding close_if_set
destroy s descriptors = close_if_set s.evtfd (close_if_set s.epfd descriptors)
