-- ===== src/Reactor/MutexLock.antt =====
-- `MutexLock` and `MutexLockGuard` of src/reactor/mutex_lock.cc and src/include/reactor/mutex_lock.h,
-- and `Condition` of src/reactor/condition.cc. The functions of pthread are parameters.
pub mod Guards
mod Tests
use serach_engine.Base.{
  Text, bytes, Bool, Outcome, ok, fault, List, [], ◌∷◌, ◌++◌, Option, none, some, if◌then◌else◌,
  ◌==◌,
}
use serach_engine.Base.Int.{ℤ, pos, int_eq}

-- What pthread does with a mutex: it returns a number and leaves the mutex in a state, and may wait
-- for ever.
pub record Pthread : Type 1 where
  pub Mutex : Type 0
  pub Cond : Type 0
  pub mutex_init : Mutex → ℤ × Mutex
  pub mutex_destroy : Mutex → ℤ × Mutex
  pub mutex_lock : Mutex → Option (ℤ × Mutex)
  pub mutex_unlock : Mutex → ℤ × Mutex
  pub cond_init : Cond → ℤ × Cond
  pub cond_destroy : Cond → ℤ × Cond
  pub cond_wait : Cond → Mutex → Option (ℤ × (Cond × Mutex))
  pub cond_signal : Cond → ℤ × Cond
  pub cond_broadcast : Cond → ℤ × Cond

-- `if (ret) perror(call)`: the calls that `perror` was given.
unfoldable pub perror_of : ℤ → Text → List Text
perror_of ret call = if ret == pos 0 then [] else call ∷ []

module _ (p : Pthread) where
  -- `MutexLock::MutexLock`, on memory in some state.
  unfoldable pub init : p.Mutex → p.Mutex × List Text
  unfolding perror_of
  init m = let (ret, m') = p.mutex_init m in (m', perror_of ret (bytes "pthread_mutex_init"))

  -- `MutexLock::~MutexLock`.
  unfoldable pub destroy : p.Mutex → p.Mutex × List Text
  unfolding perror_of
  destroy m =
      let (ret, m') = p.mutex_destroy m in (m', perror_of ret (bytes "pthread_mutex_destroy"))

  -- `MutexLock::Lock`.
  unfoldable pub lock : p.Mutex → Option (ℤ × (p.Mutex × List Text))
  unfolding perror_of
  lock m = elim (p.mutex_lock m) [
    | none ↦ none
    | some (ret, m') ↦ some (ret, (m', perror_of ret (bytes "pthread_mutex_lock")))
  ]

  -- `MutexLock::Unlock`.
  unfoldable pub unlock : p.Mutex → ℤ × (p.Mutex × List Text)
  unfolding perror_of
  unlock m =
      let (ret, m') = p.mutex_unlock m in (ret, (m', perror_of ret (bytes "pthread_mutex_unlock")))

  -- A block that begins with a `MutexLockGuard`: the destructor runs when the block returns and
  -- when it throws.
  unfoldable pub guarded {ℓ} :
      {T : Type ℓ}
      → (p.Mutex → Outcome T × (p.Mutex × List Text))
      → p.Mutex
      → Option (Outcome T × (p.Mutex × List Text))
  unfolding lock unlock
  guarded block m = elim (lock m) [
    | none ↦ none
    | some (ret, (m1, e1)) ↦
        let (result, (m2, e2)) = block m1 in
        let (ret', (m3, e3)) = unlock m2 in some (result, (m3, e1 ++ (e2 ++ e3)))
  ]

  -- `Condition::Condition` and `Condition::~Condition`.
  unfoldable pub cond_init : p.Cond → p.Cond × List Text
  unfolding perror_of
  cond_init c = let (ret, c') = p.cond_init c in (c', perror_of ret (bytes "pthread_cond_init"))

  unfoldable pub cond_destroy : p.Cond → p.Cond × List Text
  unfolding perror_of
  cond_destroy c =
      let (ret, c') = p.cond_destroy c in (c', perror_of ret (bytes "pthread_cond_destroy"))

  -- `Condition::Wait`.
  unfoldable pub wait : p.Cond → p.Mutex → Option (ℤ × ((p.Cond × p.Mutex) × List Text))
  unfolding perror_of
  wait c m = elim (p.cond_wait c m) [
    | none ↦ none
    | some (ret, both) ↦ some (ret, (both, perror_of ret (bytes "pthread_cond_wait")))
  ]

  -- `Condition::Notify`.
  unfoldable pub notify : p.Cond → ℤ × (p.Cond × List Text)
  unfolding perror_of
  notify c =
      let (ret, c') = p.cond_signal c in (ret, (c', perror_of ret (bytes "pthread_cond_signal")))

  -- `Condition::NotifyAll`.
  unfoldable pub notify_all : p.Cond → ℤ × (p.Cond × List Text)
  unfolding perror_of
  notify_all c =
      let (ret, c') = p.cond_broadcast c in
      (ret, (c', perror_of ret (bytes "pthread_cond_broadcast")))
