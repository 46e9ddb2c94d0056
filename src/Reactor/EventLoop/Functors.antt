-- ===== src/Reactor/EventLoop/Functors.antt =====
-- Every functor is called, once and in order: no write to the event descriptor is lost.
use mathlib.Core.List.{append_assoc, append-nil}
use serach_engine.Base.{
  ℕ, ◌+◌, ◌<◌, ◌≡◌, refl, true, false, List, [], ◌∷◌, ◌++◌, Option, none, some, length, arith,
  Option-cases, ◌≢◌, inl, inr,
}
use serach_engine.Reactor.EventLoop.{
  EventLoop, Stage, waiting, drained, calling, is_calling, Event, post, wake_up, handle_read, swap,
  call, finish, init, call_next, end_calls, step, run,
}

-- What was handed over is what was called, what is being called and what waits, in that order; and
-- while something waits, the loop will be woken or is on its way to the swap.
pub record IsServed (s : EventLoop) : Type 0 where
  pub fifo : s.called ++ (s.taken ++ s.pengings) ≡ s.posted
  pub due : 0 < length s.pengings → s.stage ≢ drained → 0 < s.counter + s.posting
  pub idle : s.stage ≢ calling → s.taken ≡ []

call_next-IsServed :
    (q : List ℕ) (s : EventLoop) {t : EventLoop}
    → s.taken ≡ q
    → s.stage ≡ calling
    → call_next q s ≡ some t
    → IsServed s
    → IsServed t
unfolding call_next
call_next-IsServed [] s e c h v = cc
call_next-IsServed (k ∷ rest) s e c h v =
    ground (arith, append_assoc s.called (k ∷ []) (rest ++ s.pengings))

end_calls-IsServed :
    (q : List ℕ) (s : EventLoop) {t : EventLoop}
    → s.taken ≡ q
    → s.stage ≡ calling
    → end_calls q s ≡ some t
    → IsServed s
    → IsServed t
unfolding end_calls
end_calls-IsServed [] s e c h v = ground arith
end_calls-IsServed (k ∷ rest) s e c h v = cc

-- A step of the loop's calls is made while it calls.
calling_only :
    (st : Stage) (o : Option EventLoop) {t : EventLoop}
    → elim (is_calling st) as (λ b. Option EventLoop) [ true ↦ o | false ↦ none ] ≡ some t
    → (st ≡ calling) × (o ≡ some t)
unfolding is_calling
calling_only waiting o h = cc
calling_only drained o h = cc
calling_only calling o h = (refl, h)

step-IsServed :
    (e : Event) (s : EventLoop) {t : EventLoop} → step e s ≡ some t → IsServed s → IsServed t
unfolding step
step-IsServed (post k) s h v = ground (
  arith,
  append_assoc s.called (s.taken ++ s.pengings) (k ∷ []),
  append_assoc s.taken s.pengings (k ∷ []),
)
step-IsServed wake_up s h v = ground arith
step-IsServed handle_read s h v = ground arith
step-IsServed swap s h v = ground (arith, append-nil s.pengings)
step-IsServed call s h v =
    let (c, e) = calling_only s.stage (call_next s.taken s) h in
    call_next-IsServed s.taken s refl c e v
step-IsServed finish s h v =
    let (c, e) = calling_only s.stage (end_calls s.taken s) h in
    end_calls-IsServed s.taken s refl c e v

run-keeps :
    (es : List Event) (s : EventLoop) {t : EventLoop} → run es s ≡ some t → IsServed s → IsServed t
unfolding run
run-keeps [] s h v = ground arith
run-keeps (e ∷ es) s h v = elim (Option-cases (step e s)) [
  | inl stuck ↦ absurd (ground (arith, stuck))
  | inr (s', done) ↦ run-keeps es s' (rw (done, run) at h) (step-IsServed e s done v)
]

init-IsServed : IsServed init
unfolding init
init-IsServed = ground arith

-- In every state that is reached, what was called, what the loop has taken and what waits are
-- together what was handed over, in that order; and while something waits, the event descriptor is
-- or will be written, or the loop is about to take the list.
pub run-IsServed : (es : List Event) {s : EventLoop} → run es init ≡ some s → IsServed s
run-IsServed es h = run-keeps es init h init-IsServed

-- One call for each functor taken.
abbrev pub calls : List ℕ → List Event
calls [] = finish ∷ []
calls (k ∷ rest) = call ∷ calls rest

-- What the loop does once no thread is in the middle of `RunInLoop`.
abbrev pub serving : List ℕ → List Event
serving [] = []
serving (k ∷ rest) = handle_read ∷ swap ∷ calls (k ∷ rest)
