-- ===== src/Reactor/Socket.antt =====
-- `Socket` of src/reactor/socket.cc, and the descriptors that are open. What the kernel answers is
-- in the arguments.
use serach_engine.Base.{Text, bytes, List, [], ◌∷◌, if◌then◌else◌, ◌==◌}
use serach_engine.Base.Int.{ℤ, pos, int_eq, ltb_ℤ}

pub record Socket : Type 0 where
  pub fd : ℤ

-- `Socket::Socket()`, where `socket` gives `ret`; the calls that `perror` was given.
unfoldable pub make : ℤ → Socket × List Text
make ret = (record { fd = ret }, if ltb_ℤ ret (pos 0) then bytes "socket" ∷ [] else [])

-- `Socket::Socket(int)`.
unfoldable pub of_fd : ℤ → Socket
of_fd fd = record { fd = fd }

unfoldable pub close : ℤ → List ℤ → List ℤ
close fd [] = []
close fd (x ∷ xs) = if x == fd then close fd xs else x ∷ close fd xs

-- `Socket::~Socket`: what is open after it.
unfoldable pub destroy : Socket → List ℤ → List ℤ
unfolding close
destroy s descriptors = close s.fd descriptors

-- `Socket::Socket(Socket&&) = default`: both objects, the new one first.
unfoldable pub moved : Socket → Socket × Socket
moved s = (s, s)

-- `Socket::ShutDownWrite`, where `shutdown` gives `ret`.
unfoldable pub shut_down_write : ℤ → ℤ × List Text
shut_down_write ret = (ret, if ret == pos 0 then [] else bytes "shutdown" ∷ [])
