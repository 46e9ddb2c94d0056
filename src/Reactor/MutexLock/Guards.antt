-- ===== src/Reactor/MutexLock/Guards.antt =====
-- What a block under a `MutexLockGuard` of src/include/reactor/mutex_lock.h leaves of the mutex.
use mathlib.Core.List.{append-nil}
use serach_engine.Base.{◌≡◌, refl, Text, Outcome, List, some}
use serach_engine.Base.Int.{pos, int_beq}
use serach_engine.Reactor.MutexLock.{Pthread, perror_of, lock, unlock, guarded}

-- What POSIX says of a mutex: a free one is locked at once, and its holder can unlock it.
pub record IsMutex (p : Pthread) (IsFree IsHeld : p.Mutex → Type 0) : Type 0 where
  pub lock_free :
      (m : p.Mutex) → IsFree m → (t : p.Mutex) × (p.mutex_lock m ≡ some (pos 0, t)) × IsHeld t
  pub unlock_held :
      (m : p.Mutex) → IsHeld m → (t : p.Mutex) × (p.mutex_unlock m ≡ (pos 0, t)) × IsFree t

-- x
pub guarded-IsFree {ℓ} :
    {T : Type ℓ} (p : Pthread) (IsFree IsHeld : p.Mutex → Type 0)
    (block : p.Mutex → Outcome T × (p.Mutex × List Text)) (m : p.Mutex)
    → IsMutex p IsFree IsHeld
    → ((t : p.Mutex) → IsHeld t → IsHeld (block t).1.0)
    → IsFree m
    → (held left : p.Mutex) × (p.mutex_lock m ≡ some (pos 0, held))
      × (guarded p block m ≡ some ((block held).0, (left, (block held).1.1)))
      × IsFree left
unfolding guarded lock unlock perror_of int_beq
guarded-IsFree p IsFree IsHeld block m l keeps free =
    let (held, locked, h) = l.lock_free m free in
    let (left, unlocked, f) = l.unlock_held (block held).1.0 (keeps held h) in
    (held, left, locked, rw (guarded, locked, unlocked) (rw (append-nil (block held).1.1) refl), f)
