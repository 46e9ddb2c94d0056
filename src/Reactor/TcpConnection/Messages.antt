-- ===== src/Reactor/TcpConnection/Messages.antt =====
-- A line that a client sends, as `Receive` of src/reactor/tcp_connection.cc gives it.
use serach_engine.Base.{
  ℕ, suc, ◌*◌, ◌<◌, ◌≡◌, refl, ap, Text, false, ok, List, [], ◌∷◌, ◌++◌, some, length, drop_last,
  nat_beq,
}
use serach_engine.Reactor.SocketIo.Lines.{IsOneLine, ended, read_line-IsPrompt}
use serach_engine.Reactor.SocketIo.Transfers.{IsPrompt}
use serach_engine.Reactor.SocketIo.{Reply}
use serach_engine.Reactor.TcpConnection.{c_string, receive, erase_last}

-- No line feed and no zero.
abbrev pub IsMessage : Text → Type 0
IsMessage [] = Unit {0}
IsMessage (c ∷ s) = (nat_beq c 10 ≡ false) × (nat_beq c 0 ≡ false) × IsMessage s

IsMessage-IsOneLine : (s : Text) → IsMessage s → IsOneLine s
IsMessage-IsOneLine [] h = tt
IsMessage-IsOneLine (c ∷ s) (a, b, h) = (a, IsMessage-IsOneLine s h)

c_string-ended : (s : Text) → IsMessage s → c_string (ended s) ≡ ended s
unfolding c_string
c_string-ended [] h = refl
c_string-ended (c ∷ s) (a, b, h) = rw (b, c_string-ended s h) refl

pub receive-line :
    (line rest : Text) (rs : List Reply)
    → IsMessage line
    → suc (length line) < 65535
    → IsPrompt (2 * suc (length line)) rs
    → (rs' : List Reply) × (receive (line ++ 10 ∷ rest) rs ≡ some (ended line, (rest, rs')))
unfolding receive
receive-line line rest rs m le h =
    let (rs', e) = read_line-IsPrompt 65535 line rest rs (IsMessage-IsOneLine line m) le h in
    (rs', rw (e, receive, c_string-ended line m) refl)

drop_last-ended : (c : ℕ) (s : Text) → drop_last (c ∷ ended s) ≡ c ∷ s
drop_last-ended c [] = refl
drop_last-ended c (d ∷ s) = ap (◌∷◌ c) (drop_last-ended d s)

pub erase_last-ended : (s : Text) → erase_last (ended s) ≡ ok s
unfolding erase_last
erase_last-ended [] = refl
erase_last-ended (c ∷ s) = ap ok (drop_last-ended c s)
