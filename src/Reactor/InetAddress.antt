-- ===== src/Reactor/InetAddress.antt =====
-- `InetAddress` of src/reactor/inet_address.cc. The conversions of the C library are parameters; an
-- address in memory is its three fields, the rest of which the constructor clears.
use serach_engine.Base.{ℕ, Text}

-- `htons`, `ntohs`, `inet_addr` and `inet_ntoa`.
pub record Conversions : Type 0 where
  pub htons : ℕ → ℕ
  pub ntohs : ℕ → ℕ
  pub inet_addr : Text → ℕ
  pub inet_ntoa : ℕ → Text

-- `struct sockaddr_in`.
pub record SockaddrIn : Type 0 where
  pub sin_family : ℕ
  pub sin_port : ℕ
  pub sin_addr : ℕ

-- `AF_INET`.
abbrev pub af_inet : ℕ
af_inet = 2

pub record InetAddress : Type 0 where
  pub addr : SockaddrIn

-- `InetAddress::InetAddress(const string&, unsigned short)`.
unfoldable pub from_ip : Conversions → Text → ℕ → InetAddress
from_ip c ip port = record {
  addr = record { sin_family = af_inet; sin_port = c.htons port; sin_addr = c.inet_addr ip };
}

-- `InetAddress::InetAddress(const struct sockaddr_in&)`.
unfoldable pub from_addr : SockaddrIn → InetAddress
from_addr addr = record { addr = addr }

-- `InetAddress::Ip`.
unfoldable pub ip : Conversions → InetAddress → Text
ip c a = c.inet_ntoa a.addr.sin_addr

-- `InetAddress::Port`.
unfoldable pub port : Conversions → InetAddress → ℕ
port c a = c.ntohs a.addr.sin_port

-- `InetAddress::GetInetAddrPtr`: what the pointer points to.
unfoldable pub get_inet_addr_ptr : InetAddress → SockaddrIn
get_inet_addr_ptr a = a.addr
