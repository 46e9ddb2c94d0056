-- ===== src/Reactor/Acceptor.antt =====
-- `Acceptor` of src/reactor/acceptor.cc: what its calls make of the listening socket. What the
-- kernel answers is in the arguments.
pub mod Ready
mod Tests
use serach_engine.Base.{ℕ, Text, bytes, List, [], ◌∷◌, Bool, true, false, if◌then◌else◌, ◌==◌}
use serach_engine.Base.Int.{ℤ, pos, negsuc, int_eq}

-- The socket: its two options, whether it has its address, and whether it listens.
pub record Acceptor : Type 0 where
  pub reuse_addr : Bool
  pub reuse_port : Bool
  pub bound : Bool
  pub listening : Bool

-- The constructor makes a new socket.
abbrev pub init : Acceptor
init = record { reuse_addr = false; reuse_port = false; bound = false; listening = false }

-- What the kernel answers to the four calls.
pub record Answers : Type 0 where
  pub to_reuse_addr : ℤ
  pub to_reuse_port : ℤ
  pub to_bind : ℤ
  pub to_listen : ℤ

-- `Acceptor::SetReuseAddr`.
unfoldable pub set_reuse_addr : ℤ → Acceptor → ℤ × Acceptor
set_reuse_addr ret s = (ret, if ret == pos 0 then record s { reuse_addr = true } else s)

-- `Acceptor::SetReusePort`.
unfoldable pub set_reuse_port : ℤ → Acceptor → ℤ × Acceptor
set_reuse_port ret s = (ret, if ret == pos 0 then record s { reuse_port = true } else s)

-- `Acceptor::Bind`.
unfoldable pub bind : ℤ → Acceptor → ℤ × Acceptor
bind ret s = (ret, if ret == pos 0 then record s { bound = true } else s)

-- `Acceptor::Listen`.
unfoldable pub listen : ℤ → Acceptor → ℤ × Acceptor
listen ret s = (ret, if ret == pos 0 then record s { listening = true } else s)

-- `if (ret == -1) return -1;`
abbrev pub checked : ℤ × Acceptor → (Acceptor → ℤ × Acceptor) → ℤ × Acceptor
checked (ret, s) rest = if ret == negsuc 0 then (negsuc 0, s) else rest s

-- `Acceptor::Ready`.
unfoldable pub ready : Answers → Acceptor → ℤ × Acceptor
unfolding set_reuse_addr set_reuse_port bind listen
ready a s = checked (set_reuse_addr a.to_reuse_addr s) (λ s1.
    checked (set_reuse_port a.to_reuse_port s1) (λ s2.
      checked (bind a.to_bind s2) (λ s3. checked (listen a.to_listen s3) (λ s4. (pos 0, s4)))))

-- `Acceptor::Accept`, where `accept` gives `connfd`; the calls that `perror` was given, which names
-- another.
unfoldable pub accept : ℤ → ℤ × List Text
accept connfd = (connfd, if connfd == negsuc 0 then bytes "listen" ∷ [] else [])
