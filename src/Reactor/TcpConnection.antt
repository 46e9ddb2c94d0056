-- ===== src/Reactor/TcpConnection.antt =====
-- `TcpConnection` of src/reactor/tcp_connection.cc: what it reads and writes. The bytes that come
-- and the replies of the kernel are inputs.
pub mod Messages
mod Tests
use serach_engine.Base.{
  ℕ, Text, bytes, Bool, Outcome, Fault, ok, fault, List, [], ◌∷◌, ◌++◌, Option, none, some,
  drop_last, if◌then◌else◌, nat_beq, length,
}
use serach_engine.Base.Int.{ℤ}
use serach_engine.Reactor.InetAddress.{Conversions, InetAddress, SockaddrIn, from_addr, ip, port}
use serach_engine.Reactor.SocketIo.{Reply, failed, interrupted, up_to, writen, read_line}
use serach_engine.Streams.{print_nat}

-- `string(buff)`: the bytes before the first zero; the buffer is zero behind what was read.
unfoldable pub c_string : Text → Text
c_string [] = []
c_string (c ∷ s) = let rest = c_string s in if nat_beq c 0 then [] else c ∷ rest

-- `TcpConnection::Receive`; the result of `ReadLine` is not looked at.
unfoldable pub receive : Text → List Reply → Option (Text × (Text × List Reply))
unfolding c_string
receive incoming rs = elim (read_line 65535 incoming rs) [
  | none ↦ none
  | some (ret, (buff, rest)) ↦ some (c_string buff, rest)
]

-- `TcpConnection::Send`: the bytes that go out; the result of `Writen` is not looked at.
unfoldable pub send : Text → List Reply → Option (Text × List Reply)
send msg rs = elim (writen msg rs) [ none ↦ none | some (ret, sent) ↦ some sent ]

-- `TcpConnection::IsClosed`: `recv` gives 0, which an error does not.
unfoldable pub is_closed : Reply → Text → Bool
is_closed interrupted incoming = Bool.false
is_closed failed incoming = Bool.false
is_closed (up_to n) incoming = nat_beq (length incoming) 0

-- `TcpConnection::GetPeerAddrString`.
unfoldable pub get_peer_addr_string : Conversions → InetAddress → Text
get_peer_addr_string c peer = ip c peer ++ (bytes ":" ++ print_nat (port c peer))

-- `TcpConnection::ToString`.
unfoldable pub to_string : Conversions → InetAddress → InetAddress → Text
to_string c local peer =
    ip c local
    ++ (bytes ":"
        ++ (print_nat (port c local)
            ++ (bytes "--->" ++ (ip c peer ++ (bytes ":" ++ print_nat (port c peer))))))

-- `TcpConnection::GetLocalAddr`: what `getpeername` returns and leaves in `addr`; an error is only
-- printed.
unfoldable pub get_local_addr : ℤ × SockaddrIn → InetAddress
unfolding from_addr
get_local_addr (ret, addr) = from_addr addr

-- `msg.erase(msg.size() - 1, 1)` of the servers: on an empty string the position is out of range.
unfoldable pub erase_last : Text → Outcome Text
erase_last [] = fault Fault.out_of_range
erase_last (c ∷ s) = ok (drop_last (c ∷ s))
