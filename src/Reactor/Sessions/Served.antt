-- ===== src/Reactor/Sessions/Served.antt =====
-- Connections of src/reactor/event_loop.cc that have the callbacks of one server.
use serach_engine.Base.{
  ◌+◌, ◌≤◌, ◌≡◌, sym, ap, ◌∙◌, Text, bytes, false, Outcome, ok, fault, List, [], ◌∷◌, ◌++◌, Option,
  none, some, ◌==◌, text_eq, Bool-cases, Option-cases, inl, inr,
}
use serach_engine.Base.Int.{ℤ, int_eq, ltb_ℤ}
use serach_engine.Base.Maps.{find, insert, place, erase}
use serach_engine.Reactor.InetAddress.{Conversions, InetAddress}
use serach_engine.Reactor.Sessions.{World, Peer, Callbacks, TcpConnection, Sessions, call, returned}
use serach_engine.Reactor.TcpConnection.{to_string}
use serach_engine.Reactor.Sessions.Counts.{entries, open_as}

-- What holds of what a call returned.
abbrev pub OnReturn {ℓ κ} : {T : Type ℓ} → (T → Type κ) → Option (Outcome T) → Type κ
OnReturn P none = Unit
OnReturn P (some (fault e)) = Unit
OnReturn P (some (ok t)) = P t

abbrev pub connected : Conversions → InetAddress → InetAddress → Text
connected c local peer = to_string c local peer ++ bytes " has connected"

abbrev pub closed : Conversions → InetAddress → InetAddress → Text
closed c local peer = to_string c local peer ++ bytes " has closed"

-- What the callbacks of a server log, under two different formats.
pub record IsLogging (c : Conversions) (opening closing : Text) (cbs : Callbacks) : Type 0 where
  pub differ : (opening == closing) ≡ false
  pub differ_too : (closing == opening) ≡ false
  pub opens :
      (peer : Peer) (w : World)
      → OnReturn
          (λ t. t.logged ≡ w.logged ++ (opening, connected c peer.local_addr peer.peer_addr) ∷ [])
          (call cbs.on_connection peer w)
  pub closes :
      (peer : Peer) (w : World)
      → OnReturn
          (λ t. t.logged ≡ w.logged ++ (closing, closed c peer.local_addr peer.peer_addr) ∷ [])
          (call cbs.on_close peer w)
  pub is_quiet :
      (peer : Peer) (w : World) → OnReturn (λ t. t.logged ≡ w.logged) (call cbs.on_message peer w)

-- Every connection of the map has these callbacks.
abbrev pub Served : Callbacks → List (ℤ × TcpConnection) → Type 0
Served cbs [] = Unit {0}
Served cbs ((fd, con) ∷ conns) = (con.callbacks ≡ cbs) × Served cbs conns

-- Of no name have more connections closed or stay open than came.
abbrev pub IsBalanced : Conversions → Text → Text → Text → Sessions → Type 0
IsBalanced c opening closing name s =
    entries closing (name ++ bytes " has closed") s.world.logged + open_as c name s.conns
    ≤ entries opening (name ++ bytes " has connected") s.world.logged

pub find-Served :
    (cbs : Callbacks) (fd : ℤ) (con : TcpConnection) (conns : List (ℤ × TcpConnection))
    → Served cbs conns
    → find fd conns ≡ some con
    → con.callbacks ≡ cbs
unfolding find
find-Served cbs fd con [] s h = cc
find-Served cbs fd con ((d, other) ∷ conns) s h = elim (Bool-cases (d == fd)) [
  | inl e ↦
      let same_con : some other ≡ some con = rw (e, find) at h in
      let other_con : other ≡ con = cc in ap (λ k. k.callbacks) (sym other_con) ∙ s.0
  | inr e ↦
      let later : find fd conns ≡ some con = rw (e, find) at h in
      find-Served cbs fd con conns s.1 later
]

pub place-Served :
    (cbs : Callbacks) (fd : ℤ) (con : TcpConnection) (conns : List (ℤ × TcpConnection))
    → con.callbacks ≡ cbs
    → Served cbs conns
    → Served cbs (place ltb_ℤ fd con conns)
unfolding place
place-Served cbs fd con [] h s = (h, tt)
place-Served cbs fd con ((d, other) ∷ conns) h s = elim (Bool-cases (ltb_ℤ fd d)) [
  | inl e ↦ rw (e, place) (h, s)
  | inr e ↦ rw (e, place) (s.0, place-Served cbs fd con conns h s.1)
]

pub insert-Served :
    (cbs : Callbacks) (fd : ℤ) (con : TcpConnection) (conns : List (ℤ × TcpConnection))
    → con.callbacks ≡ cbs
    → Served cbs conns
    → Served cbs (insert ltb_ℤ fd con conns)
unfolding insert
insert-Served cbs fd con conns h s = elim (Option-cases (find fd conns)) [
  | inl absent ↦ rw (absent, insert) (place-Served cbs fd con conns h s)
  | inr (old, found) ↦ rw (found, insert) s
]

pub erase-Served :
    (cbs : Callbacks) (fd : ℤ) (conns : List (ℤ × TcpConnection))
    → Served cbs conns
    → Served cbs (erase fd conns)
unfolding erase
erase-Served cbs fd [] s = tt
erase-Served cbs fd ((d, con) ∷ conns) s = elim (Bool-cases (d == fd)) [
  | inl e ↦ rw (e, erase) (erase-Served cbs fd conns s.1)
  | inr e ↦ rw (e, erase) (s.0, erase-Served cbs fd conns s.1)
]

-- The rest of a handler keeps what its callback and its end keep.
pub returned-OnReturn {κ ℓ} :
    (P : World → Type κ) (Q : Sessions → Type ℓ) (o : Option (Outcome World))
    (after : World → Sessions)
    → OnReturn P o
    → ((w : World) → P w → Q (after w))
    → OnReturn Q (returned o after)
unfolding returned
returned-OnReturn P Q none after p f = tt
returned-OnReturn P Q (some (fault e)) after p f = tt
returned-OnReturn P Q (some (ok w)) after p f = f w p
