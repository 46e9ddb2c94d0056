-- ===== src/Reactor/MutexLock/Tests.antt =====
-- A guard of src/include/reactor/mutex_lock.h over a mutex that is a flag.
use serach_engine.Base.{
  ℕ, ◌≡◌, refl, Text, Bool, true, false, Outcome, Fault, fault, List, [], none, some, if◌then◌else◌,
}
use serach_engine.Base.Int.{pos}
use serach_engine.Reactor.MutexLock.Guards.{IsMutex, guarded-IsFree}
use serach_engine.Reactor.MutexLock.{Pthread, guarded}

-- The flag is up while the mutex is held; there is nothing to a condition.
abbrev flag : Pthread
flag = record {
  Mutex = Bool;
  Cond = ℕ;
  mutex_init = λ m. (pos 0, false);
  mutex_destroy = λ m. (pos 0, m);
  mutex_lock = λ m. if m then none else some (pos 0, true);
  mutex_unlock = λ m. (pos 0, false);
  cond_init = λ c. (pos 0, 0);
  cond_destroy = λ c. (pos 0, c);
  cond_wait = λ c m. some (pos 0, (c, true));
  cond_signal = λ c. (pos 0, c);
  cond_broadcast = λ c. (pos 0, c);
}

flag-IsMutex : IsMutex flag (λ m. m ≡ false) (λ m. m ≡ true)
flag-IsMutex = record {
  lock_free = λ m h. (true, rw (h) refl, refl);
  unlock_held = λ m h. (false, refl, refl);
}

-- A block that throws.
abbrev throws : Bool → Outcome ℕ × (Bool × List Text)
throws m = (fault Fault.runtime_error, (m, []))

guarded-IsFree_example :
    (held left : Bool) × (flag.mutex_lock false ≡ some (pos 0, held))
    × (guarded flag throws false ≡ some (fault Fault.runtime_error, (left, [])))
    × (left ≡ false)
guarded-IsFree_example =
    guarded-IsFree flag (λ m. m ≡ false) (λ m. m ≡ true) throws false flag-IsMutex (λ t h. h) refl
