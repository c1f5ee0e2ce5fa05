-- ===== src/Threads/Wait.antt =====
-- What a wait on a condition variable does to its mutex (core/thread.cc).
use gnuweeb_bot.Common.{ℕ, ◌≡◌, refl, Bool, true, false, Option, none, some, arith, ◌==◌, ◌+◌}
use gnuweeb_bot.Common.Family.{assign}
use gnuweeb_bot.Threads.{
  Outcome, returns, throws, and_then, MutexStruct, mutex_lock, unlock_object, unlock_by,
  mutex_unlock, cond_wait, relock, cond_wait_wake,
}

-- One thread locks the mutex, waits, wakes up and unlocks.
abbrev pub wait_alone : MutexStruct → Outcome MutexStruct
unfolding mutex_lock mutex_unlock cond_wait cond_wait_wake
wait_alone m = and_then (mutex_lock m) (λ m1.
    and_then (cond_wait m1) (λ waiting. and_then (cond_wait_wake waiting.0 waiting.1) mutex_unlock))

-- While one thread waits, another locks the mutex and unlocks it.
abbrev pub unlock_beside : MutexStruct → Outcome MutexStruct
unfolding mutex_lock mutex_unlock cond_wait
unlock_beside m =
    and_then (mutex_lock m)
      (λ m1. and_then (cond_wait m1) (λ waiting. and_then (mutex_lock waiting.1) mutex_unlock))

-- On a mutex that is free, where there is memory, a thread that waits alone leaves it free and with
-- no lock object of its own; but where another thread locks and unlocks the mutex in the meantime,
-- its mutex_unlock takes the object of the waiting thread, which does not own the mutex, and throws.
pub cond_wait_lem :
    (m : MutexStruct) (u : ℕ)
    → m.locked ≡ false
    → m.ulock ≡ none
    → m.owns m.calls ≡ none
    → m.found m.calls ≡ true
    → (m' : MutexStruct) × (wait_alone m ≡ returns m')
      × (m'.locked ≡ false)
      × (m'.ulock ≡ none)
      × (m'.owns u ≡ m.owns u)
      × (unlock_beside m ≡ throws)
unfolding wait_alone unlock_beside mutex_lock mutex_unlock unlock_object unlock_by cond_wait relock
    cond_wait_wake
cond_wait_lem m u free none_yet unborn found =
    let c = m.calls in
    let self : (c == c) ≡ true = ground arith in
    let slept : ℕ → Option Bool = assign (assign m.owns c (some true)) c (some false) in
    let gone : ℕ → Option Bool =
      assign (assign (assign slept c (some true)) c (some false)) c none in
    (
      record { locked = false; ulock = none; owns = gone; calls = c + 1; found = m.found },
      rw (free, found, self, self) refl,
      refl,
      refl,
      ground (arith, unborn),
      rw (free, found, self) refl,
    )
