-- ===== src/Reactor/Sessions/Counts.antt =====
-- Counting the lines that the servers log, and the connections of the map of
-- src/reactor/event_loop.cc.
use serach_engine.Base.{
  ℕ, suc, ◌+◌, ◌≤◌, ◌≡◌, refl, sym, ap, ◌∙◌, Text, Bool, true, false, ◌&&◌, List, [], ◌∷◌, ◌++◌,
  some, length, if◌then◌else◌, ◌==◌, text_eq, same_iff, arith, Bool-cases, Option-cases, inl, inr,
  length-append,
}
use serach_engine.Base.Int.{ℤ, int_eq, ltb_ℤ}
use serach_engine.Base.Maps.{find, insert, place, erase}
use serach_engine.Reactor.InetAddress.{Conversions}
use serach_engine.Reactor.Sessions.{TcpConnection}
use serach_engine.Reactor.TcpConnection.{to_string}

-- How often the logger was called so.
unfoldable pub entries : Text → Text → List (Text × Text) → ℕ
entries format msg [] = 0
entries format msg ((f, m) ∷ log) =
    if f == format && m == msg then suc (entries format msg log) else entries format msg log

-- How many connections of the map have that name.
unfoldable pub open_as : Conversions → Text → List (ℤ × TcpConnection) → ℕ
open_as c name [] = 0
open_as c name ((fd, con) ∷ conns) =
    if to_string c con.local_addr con.peer_addr == name
    then suc (open_as c name conns)
    else open_as c name conns

unfoldable pub bit : Bool → ℕ
bit true = 1
bit false = 0

pub entries-append :
    (format msg f m : Text) (log : List (Text × Text))
    → entries format msg (log ++ (f, m) ∷ [])
      ≡ entries format msg log + bit (f == format && m == msg)
unfolding entries bit
entries-append format msg f m [] = ground arith
entries-append format msg f m ((g, n) ∷ log) = ground (arith, entries-append format msg f m log)

pub append-cancel : (s t u : Text) → s ++ u ≡ t ++ u → s ≡ t
append-cancel [] [] u h = refl
append-cancel [] (y ∷ t) u h = absurd (omega (arith, ap length h, length-append t u))
append-cancel (x ∷ s) [] u h = absurd (omega (arith, ap length h, length-append s u))
append-cancel (x ∷ s) (y ∷ t) u h =
    let heads : x ≡ y = cc in
    let tails : s ++ u ≡ t ++ u = cc in let rest = append-cancel s t u tails in cc

-- Texts with the same end differ as what stands before it does.
pub same-append : (s t u : Text) → (s ++ u == t ++ u) ≡ (s == t)
same-append s t u = elim (Bool-cases (s == t)) [
  | inl e ↦ rw (e) ((same_iff (s ++ u) (t ++ u)).1 (ap (λ k. k ++ u) ((same_iff s t).0 e)))
  | inr e ↦ elim (Bool-cases (s ++ u == t ++ u)) [
    | inl both ↦
        let same_text = append-cancel s t u ((same_iff (s ++ u) (t ++ u)).0 both) in
        absurd (ground (arith, e, (same_iff s t).1 same_text))
    | inr differ ↦ differ ∙ sym e
  ]
]

pub open_as-place :
    (c : Conversions) (name : Text) (fd : ℤ) (con : TcpConnection)
    (conns : List (ℤ × TcpConnection))
    → open_as c name (place ltb_ℤ fd con conns)
      ≡ open_as c name conns + bit (to_string c con.local_addr con.peer_addr == name)
unfolding open_as place bit
open_as-place c name fd con [] = ground arith
open_as-place c name fd con ((d, other) ∷ conns) = ground (arith, open_as-place c name fd con conns)

pub open_as-insert :
    (c : Conversions) (name : Text) (fd : ℤ) (con : TcpConnection)
    (conns : List (ℤ × TcpConnection))
    → open_as c name (insert ltb_ℤ fd con conns)
      ≤ open_as c name conns + bit (to_string c con.local_addr con.peer_addr == name)
unfolding insert
open_as-insert c name fd con conns = elim (Option-cases (find fd conns)) [
  | inl absent ↦ rw (absent, insert) (omega (arith, open_as-place c name fd con conns))
  | inr (old, found) ↦ rw (found, insert) (omega arith)
]

pub open_as-erase_le :
    (c : Conversions) (name : Text) (fd : ℤ) (conns : List (ℤ × TcpConnection))
    → open_as c name (erase fd conns) ≤ open_as c name conns
unfolding open_as erase
open_as-erase_le c name fd [] = omega arith
open_as-erase_le c name fd ((d, con) ∷ conns) = ground (arith, open_as-erase_le c name fd conns)

pub open_as-erase :
    (c : Conversions) (name : Text) (fd : ℤ) (con : TcpConnection)
    (conns : List (ℤ × TcpConnection))
    → find fd conns ≡ some con
    → open_as c name (erase fd conns) + bit (to_string c con.local_addr con.peer_addr == name)
      ≤ open_as c name conns
unfolding open_as erase find bit
open_as-erase c name fd con [] h = cc
open_as-erase c name fd con ((d, other) ∷ conns) h = elim (Bool-cases (d == fd)) [
  | inl e ↦ ground (arith, e, open_as-erase_le c name fd conns)
  | inr e ↦ ground (arith, e, open_as-erase c name fd con conns)
]
