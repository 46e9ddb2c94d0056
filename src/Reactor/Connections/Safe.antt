-- ===== src/Reactor/Connections/Safe.antt =====
-- While the map of src/reactor/event_loop.cc has every connection that a task or a functor names.
use serach_engine.Base.{
  ◌≡◌, refl, ap, sym, ◌∙◌, Text, Bool, true, false, not, ◌||◌, Outcome, ok, List, [], ◌∷◌, ◌++◌,
  none, some, if◌then◌else◌, ◌==◌, nat_eq, nat_beq_iff, arith, Bool-cases, Option-cases, inl, inr,
  ℕ, suc,
}
use serach_engine.Base.Int.{ℤ, pos, int_eq, int_beq_iff, ltb_ℤ}
use serach_engine.Base.Maps.{find, insert, find-insert_or, or_else}
use serach_engine.Base.Sets.{contains}
use serach_engine.Reactor.Connections.{
  Loop, Ready, add_epoll_read_fd, values, is_alive, handle_new_connection, handle_message,
  call_functors, do_penging_functors, dispatch, drop_one,
}
use mathlib.Core.List.{append-nil, append_assoc}

-- The map has the connection.
abbrev pub IsKept : List (ℤ × ℕ) → ℕ → Type 0
IsKept m con = (fd : ℤ) × (find fd m ≡ some con)

pub contains-values :
    (fd : ℤ) (con : ℕ) (m : List (ℤ × ℕ)) → find fd m ≡ some con → contains con (values m) ≡ true
unfolding find values contains
contains-values fd con [] h = cc
contains-values fd con ((k, c) ∷ m) h =
    ground (arith, contains-values fd con m, int_beq_iff k fd, nat_beq_iff con c, nat_beq_iff c con)

pub insert-IsKept :
    (fd : ℤ) (new con : ℕ) (m : List (ℤ × ℕ)) → IsKept m con → IsKept (insert ltb_ℤ fd new m) con
unfolding or_else
insert-IsKept fd new con m (k, found) = (
  k,
  find-insert_or ltb_ℤ fd k new m ∙ ap (λ o. or_else o (if fd == k then some new else none)) found,
)

-- The connections of the functors.
unfoldable pub receivers : List (ℕ × Text) → List ℕ
receivers [] = []
receivers ((con, msg) ∷ fs) = con ∷ receivers fs

pub contains-receivers :
    (x con : ℕ) (msg : Text) (fs : List (ℕ × Text))
    → contains x (receivers (fs ++ (con, msg) ∷ [])) ≡ true
    → (contains x (receivers fs) || con == x) ≡ true
unfolding receivers contains
contains-receivers x con msg [] h = ground (arith, nat_beq_iff x con, nat_beq_iff con x)
contains-receivers x con msg ((c, m) ∷ fs) h =
    ground (arith, contains-receivers x con msg fs, nat_beq_iff x con, nat_beq_iff con x)

pub contains-drop_one :
    (x con : ℕ) (l : List ℕ) → contains x (drop_one con l) ≡ true → contains x l ≡ true
unfolding drop_one contains
contains-drop_one x con [] h = h
contains-drop_one x con (y ∷ l) h = ground (arith, contains-drop_one x con l)

-- What a task holds or a functor names, the map has.
abbrev pub IsSafe : Loop → Type 0
IsSafe s =
    (x : ℕ) → (contains x s.tasks || contains x (receivers s.pengings)) ≡ true → IsKept s.conns x

pub receivers-head :
    (con : ℕ) (msg : Text) (fs : List (ℕ × Text))
    → contains con (receivers ((con, msg) ∷ fs)) ≡ true
unfolding contains receivers
receivers-head con msg fs = ground (arith, nat_beq_iff con con)

pub receivers-tail :
    (x con : ℕ) (msg : Text) (fs : List (ℕ × Text))
    → contains x (receivers fs) ≡ true
    → contains x (receivers ((con, msg) ∷ fs)) ≡ true
unfolding contains receivers
receivers-tail x con msg fs h = ground (arith, h)

pub call_functors-kept :
    (fs : List (ℕ × Text)) (s : Loop)
    → ((x : ℕ) → contains x (receivers fs) ≡ true → IsKept s.conns x)
    → call_functors fs s ≡ ok (record s { send_calls = s.send_calls ++ fs })
unfolding call_functors is_alive
call_functors-kept [] s kept =
    ap (λ l. ok (record s { send_calls = l })) (sym (append-nil s.send_calls))
call_functors-kept ((con, msg) ∷ fs) s kept =
    let (fd, found) = kept con (receivers-head con msg fs) in
    rw
      (
        call_functors,
        is_alive,
        contains-values fd con s.conns found,
        ← append_assoc s.send_calls ((con, msg) ∷ []) fs,
      )
      (call_functors-kept fs (record s { send_calls = s.send_calls ++ (con, msg) ∷ [] })
        (λ x h. kept x (receivers-tail x con msg fs h)))

-- The call returns and what it returns is safe.
abbrev pub Succeeds : Outcome Loop → Type 0
Succeeds call = (t : Loop) × (call ≡ ok t) × IsSafe t

pub handle_new_connection-IsSafe :
    (adds : Bool) (peerfd : ℤ) (s : Loop) → IsSafe s → IsSafe (handle_new_connection adds peerfd s)
unfolding handle_new_connection add_epoll_read_fd
handle_new_connection-IsSafe adds peerfd s v =
    by_watched (not adds || (ltb_ℤ peerfd (pos 0) || contains peerfd s.registered))
  where
    by_watched :
        (b : Bool)
        → (let t = if b then s else record s { registered = peerfd ∷ s.registered } in
            IsSafe (record t { conns = insert ltb_ℤ peerfd t.made t.conns; made = suc t.made }))
    by_watched true x h = insert-IsKept peerfd s.made x s.conns (v x h)
    by_watched false x h = insert-IsKept peerfd s.made x s.conns (v x h)

pub handle_message-Succeeds :
    (fd : ℤ) (s : Loop) → IsSafe s → Succeeds (handle_message fd false false s)
unfolding handle_message contains
handle_message-Succeeds fd s v = elim (Option-cases (find fd s.conns)) [
  | inl absent ↦ rw (absent, handle_message) ((s, refl, v))
  | inr (con, found) ↦
      rw (found, handle_message)
        ((
          record s { tasks = con ∷ s.tasks },
          refl,
          λ x h. elim (Bool-cases (con == x)) [
            | inl same ↦ (fd, rw (← (nat_beq_iff con x).0 same) found)
            | inr other ↦ v x (held con x s.tasks other h)
          ],
        ))
]
  where
    held :
        (con x : ℕ) (l : List ℕ)
        → (con == x) ≡ false
        → (contains x (con ∷ l) || contains x (receivers s.pengings)) ≡ true
        → (contains x l || contains x (receivers s.pengings)) ≡ true
    held con x l other h = ground (arith, h, other)

pub do_penging_functors-kept :
    (s : Loop)
    → IsSafe s
    → do_penging_functors s
      ≡ ok (record s { pengings = []; send_calls = s.send_calls ++ s.pengings })
unfolding do_penging_functors
do_penging_functors-kept s v =
    call_functors-kept s.pengings (record s { pengings = [] })
      (λ x h. v x (or_right (contains x s.tasks) h))
  where
    or_right : (b : Bool) {c : Bool} → c ≡ true → (b || c) ≡ true
    or_right true h = refl
    or_right false h = h

pub after_functors-IsSafe :
    (s : Loop) (calls : List (ℕ × Text))
    → IsSafe s
    → IsSafe (record s { pengings = []; send_calls = calls })
unfolding receivers contains
after_functors-IsSafe s calls v x h = v x (ground (arith, h))

pub dispatch-Succeeds :
    (e : Ready) (s : Loop)
    → e.is_closed ≡ false
    → e.throws ≡ false
    → IsSafe s
    → Succeeds (dispatch e s)
unfolding dispatch
dispatch-Succeeds e s up returns v = elim (Bool-cases (e.fd == s.acceptor)) [
  | inl new ↦
      rw (new, dispatch)
        (ready_if e.epollin (handle_new_connection e.adds e.peerfd s)
          (handle_new_connection-IsSafe e.adds e.peerfd s v))
  | inr old ↦ elim (Bool-cases (e.fd == s.evtfd)) [
    | inl woken ↦
        rw (old, woken, dispatch)
          ((
            record s { pengings = []; send_calls = s.send_calls ++ s.pengings },
            do_penging_functors-kept s v,
            after_functors-IsSafe s (s.send_calls ++ s.pengings) v,
          ))
    | inr message ↦
        rw (old, message, up, returns, dispatch)
          (called_if e.epollin (handle_message e.fd false false s)
            (handle_message-Succeeds e.fd s v))
  ]
]
  where
    ready_if : (b : Bool) (t : Loop) → IsSafe t → Succeeds (ok (if b then t else s))
    ready_if true t w = (t, refl, w)
    ready_if false t w = (s, refl, v)

    called_if :
        (b : Bool) (call : Outcome Loop) → Succeeds call → Succeeds (if b then call else ok s)
    called_if true call w = w
    called_if false call w = (s, refl, v)
