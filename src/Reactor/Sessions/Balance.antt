-- ===== src/Reactor/Sessions/Balance.antt =====
-- The lines that the servers log for their connections, counted against the map of connections of
-- src/reactor/event_loop.cc.
use mathlib.Core.Path.{subst}
use serach_engine.Base.{
  ◌+◌, ◌≤◌, ◌≡◌, refl, sym, ap, ◌∙◌, Text, bytes, Bool, false, Outcome, ok, fault, List, [], ◌∷◌,
  ◌++◌, Option, none, some, ◌==◌, text_eq, same, same_iff, arith, Bool-cases, Option-cases, inl,
  inr,
}
use serach_engine.Base.Int.{ℤ, int_eq}
use serach_engine.Base.Maps.{find}
use serach_engine.Reactor.InetAddress.{Conversions, InetAddress, SockaddrIn}
use serach_engine.Reactor.Sessions.Servers.{web_callbacks, key_callbacks}
use serach_engine.Reactor.Sessions.{
  Callbacks, TcpConnection, init, peer_of, Sessions, Event, call, handle_connection_callback,
  handle_message_callback, handle_close_callback, handle_new_connection, handle_message, accepted,
  readable, step, run,
}
use serach_engine.Reactor.SocketIo.{Reply}
use serach_engine.Reactor.TcpConnection.{to_string}
use serach_engine.Reactor.Sessions.Counts.{
  entries, open_as, bit, entries-append, same-append, open_as-insert, open_as-erase,
}
use serach_engine.Reactor.Sessions.Served.{
  OnReturn, connected, closed, IsLogging, Served, IsBalanced, find-Served, insert-Served,
  erase-Served, returned-OnReturn,
}
use serach_engine.Reactor.Sessions.Starts.{begun, web_callbacks-IsLogging, key_callbacks-IsLogging}

module _ (c : Conversions) (opening closing : Text) (cbs : Callbacks) where
  abbrev IsKept : Sessions → Type 0
  IsKept s =
      (s.callbacks ≡ cbs)
      × Served cbs s.conns
      × ((name : Text) → IsBalanced c opening closing name s)

  -- One more line of a connection counts for its name.
  entries-connected :
      (name : Text) (local peer : InetAddress) (log : List (Text × Text))
      → entries opening
          (name ++ bytes " has connected")
          (log ++ (opening, connected c local peer) ∷ [])
        ≡ entries opening (name ++ bytes " has connected") log
          + bit (to_string c local peer == name)
  entries-connected name local peer log =
      entries-append opening (name ++ bytes " has connected") opening (connected c local peer) log
      ∙ ground (
        arith,
        (same_iff opening opening).1 refl,
        same-append (to_string c local peer) name (bytes " has connected"),
      )

  entries-closed :
      (name : Text) (local peer : InetAddress) (log : List (Text × Text))
      → entries closing (name ++ bytes " has closed") (log ++ (closing, closed c local peer) ∷ [])
        ≡ entries closing (name ++ bytes " has closed") log + bit (to_string c local peer == name)
  entries-closed name local peer log =
      entries-append closing (name ++ bytes " has closed") closing (closed c local peer) log
      ∙ ground (
        arith,
        (same_iff closing closing).1 refl,
        same-append (to_string c local peer) name (bytes " has closed"),
      )

  entries-other :
      (format other msg m : Text) (log : List (Text × Text))
      → (other == format) ≡ false
      → entries format msg (log ++ (other, m) ∷ []) ≡ entries format msg log
  unfolding bit
  entries-other format other msg m log h = entries-append format msg other m log ∙ ground (arith, h)

  handle_new_connection-IsKept :
      (fd : ℤ) (named : ℤ × SockaddrIn) (peer : InetAddress) (s : Sessions)
      → IsLogging c opening closing cbs
      → IsKept s
      → OnReturn IsKept (handle_new_connection fd named peer s)
  unfolding handle_new_connection handle_connection_callback init peer_of
  handle_new_connection-IsKept fd named peer s l (same, served, balanced) =
      let con : TcpConnection = record (init named peer) { callbacks = s.callbacks } in
      let local = con.local_addr in
      let opens : OnReturn
          (λ t. t.logged ≡ s.world.logged ++ (opening, connected c local peer) ∷ [])
          (call s.callbacks.on_connection (peer_of con [] []) s.world) =
        rw (same) (l.opens (peer_of con [] []) s.world) in
      returned-OnReturn (λ t. t.logged ≡ s.world.logged ++ (opening, connected c local peer) ∷ [])
        IsKept (call s.callbacks.on_connection (peer_of con [] []) s.world) _ opens
        (λ w logged. (
          same,
          insert-Served cbs fd con s.conns same served,
          λ name.
              let no_more =
                ap (entries closing (name ++ bytes " has closed")) logged
                ∙ entries-other closing opening (name ++ bytes " has closed")
                    (connected c local peer) s.world.logged l.differ in
              let one_more =
                ap (entries opening (name ++ bytes " has connected")) logged
                ∙ entries-connected name local peer s.world.logged in
              omega (arith, no_more, one_more, open_as-insert c name fd con s.conns, balanced name),
        ))

  handle_message-IsKept :
      (fd : ℤ) (is_closed : Bool) (incoming : Text) (rs : List Reply) (s : Sessions)
      → IsLogging c opening closing cbs
      → IsKept s
      → OnReturn IsKept (handle_message fd is_closed incoming rs s)
  unfolding handle_message handle_message_callback handle_close_callback peer_of
  handle_message-IsKept fd is_closed incoming rs s l (same, served, balanced) =
      elim (Option-cases (find fd s.conns)) [
        | inl absent ↦ rw (absent, handle_message) (same, served, balanced)
        | inr (con, found) ↦
            let own : con.callbacks ≡ cbs = find-Served cbs fd con s.conns served found in
            let peer = peer_of con incoming rs in
            elim (Bool-cases is_closed) [
              | inl gone ↦
                  rw (found, gone, handle_message)
                    (returned-OnReturn
                      (λ t.
                        t.logged
                        ≡ s.world.logged ++ (closing, closed c con.local_addr con.peer_addr) ∷ [])
                      IsKept (call con.callbacks.on_close peer s.world) _
                      (rw (own) (l.closes peer s.world))
                      (λ w logged. (
                        same,
                        erase-Served cbs fd s.conns served,
                        λ name.
                            let one_more =
                              ap (entries closing (name ++ bytes " has closed")) logged
                              ∙ entries-closed name con.local_addr con.peer_addr s.world.logged in
                            let no_more =
                              ap (entries opening (name ++ bytes " has connected")) logged
                              ∙ entries-other opening closing (name ++ bytes " has connected")
                                  (closed c con.local_addr con.peer_addr) s.world.logged
                                  l.differ_too in
                            omega (
                              arith,
                              no_more,
                              one_more,
                              open_as-erase c name fd con s.conns found,
                              balanced name,
                            ),
                      )))
              | inr here ↦
                  rw (found, here, handle_message)
                    (returned-OnReturn (λ t. t.logged ≡ s.world.logged) IsKept
                      (call con.callbacks.on_message peer s.world) _
                      (rw (own) (l.is_quiet peer s.world))
                      (λ w logged. (
                        same,
                        served,
                        λ name.
                            subst
                              (λ log.
                                entries closing (name ++ bytes " has closed") log
                                  + open_as c name s.conns
                                ≤ entries opening (name ++ bytes " has connected") log)
                              (sym logged) (balanced name),
                      )))
            ]
      ]

  step-IsKept :
      (e : Event) (s : Sessions)
      → IsLogging c opening closing cbs
      → IsKept s
      → OnReturn IsKept (step e s)
  unfolding step
  step-IsKept (accepted fd named peer) s l k = handle_new_connection-IsKept fd named peer s l k
  step-IsKept (readable fd is_closed incoming rs) s l k =
      handle_message-IsKept fd is_closed incoming rs s l k

  run-IsKept :
      (es : List Event) (s : Sessions)
      → IsLogging c opening closing cbs
      → IsKept s
      → OnReturn IsKept (run es s)
  unfolding run
  run-IsKept [] s l k = k
  run-IsKept (e ∷ es) s l k =
      after_step (step e s) (step-IsKept e s l k) (λ t k'. run-IsKept es t l k')
    where
      after_step :
          (o : Option (Outcome Sessions))
          → OnReturn IsKept o
          → ((t : Sessions) → IsKept t → OnReturn IsKept (run es t))
          → OnReturn IsKept (elim o as (λ p. Option (Outcome Sessions)) [
            | none ↦ none
            | some (fault f) ↦ some (fault f)
            | some (ok t) ↦ run es t
          ])
      after_step none k' next = tt
      after_step (some (fault f)) k' next = tt
      after_step (some (ok t)) k' next = next t k'

begun-IsBalanced :
    (c : Conversions) (opening closing : Text) (cbs : Callbacks) (es : List Event) (name : Text)
    → IsLogging c opening closing cbs
    → OnReturn (IsBalanced c opening closing name) (run es (begun cbs))
unfolding entries open_as
begun-IsBalanced c opening closing cbs es name l =
    weaken (run es (begun cbs))
      (run-IsKept c opening closing cbs es (begun cbs) l (refl, tt, λ n. omega arith))
  where
    weaken :
        (o : Option (Outcome Sessions))
        → OnReturn (IsKept c opening closing cbs) o
        → OnReturn (IsBalanced c opening closing name) o
    weaken none k = tt
    weaken (some (fault f)) k = tt
    weaken (some (ok s)) (same, served, balanced) = balanced name

-- Once a web server or a key server has set its callbacks, whatever connections come, send and
-- close, when the run returns there are at least as many lines of the log that a client of a name
-- has connected as lines that one has closed and connections of that name in the map together.
pub run-IsBalanced :
    (c : Conversions) (es : List Event) (name : Text)
    → OnReturn
        (IsBalanced c (bytes "Connection message: {}") (bytes "Close message: {}") name)
        (run es (begun (web_callbacks c)))
      × OnReturn
          (IsBalanced c (bytes "connection message: {}") (bytes "close message: {}") name)
          (run es (begun (key_callbacks c)))
run-IsBalanced c es name = (
  begun-IsBalanced c (bytes "Connection message: {}") (bytes "Close message: {}") (web_callbacks c)
      es name (web_callbacks-IsLogging c),
  begun-IsBalanced c (bytes "connection message: {}") (bytes "close message: {}") (key_callbacks c)
      es name (key_callbacks-IsLogging c),
)
