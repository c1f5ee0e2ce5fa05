-- ===== src/Threads.antt =====
-- core/thread.cc where CONFIG_CPP_THREAD is set: mutexes, condition variables and threads over those
-- of the C++ library.
pub mod Wait
pub mod Objects
mod Tests
use gnuweeb_bot.Common.{ℕ, ◌+◌, Bool, true, false, Option, none, some, List, [], ◌∷◌, if◌then◌else◌}
use gnuweeb_bot.Common.Int.{ℤ, pos}
use gnuweeb_bot.Common.Errno.{enomem}
use gnuweeb_bot.Common.Family.{assign}

-- How a call ends: it returns, the caller sleeps, it throws std::system_error, or it uses an object
-- that was deleted.
pub data Outcome (A : Type 0) : Type 0 where
  returns : A → Outcome A
  blocks throws faults : Outcome A

abbrev pub and_then : {A B : Type 0} → Outcome A → (A → Outcome B) → Outcome B
and_then (returns a) next = next a
and_then blocks next = blocks
and_then throws next = throws
and_then faults next = faults

-- `struct mutex_struct`, and the std::unique_lock objects on the heap: whether each owns the mutex,
-- `none` where there is no object. The k-th `new` succeeds where `found k` is true, and makes the
-- object k.
pub record MutexStruct : Type 0 where
  pub locked : Bool
  pub ulock : Option ℕ
  pub owns : ℕ → Option Bool
  pub calls : ℕ
  pub found : ℕ → Bool

unfoldable pub mutex_lock : MutexStruct → Outcome MutexStruct
mutex_lock m = if m.locked then blocks else returns (record m { locked = true })

-- `std::unique_lock::unlock` throws where it does not own the mutex.
unfoldable pub unlock_object : Option Bool → ℕ → MutexStruct → Outcome MutexStruct
unlock_object none u m = faults
unlock_object (some false) u m = throws
unlock_object (some true) u m =
    returns (record m { locked = false; owns = assign m.owns u (some false) })

abbrev pub delete_object : ℕ → MutexStruct → Outcome MutexStruct
delete_object u m = returns (record m { owns = assign m.owns u none })

unfoldable pub unlock_by : Option ℕ → MutexStruct → Outcome MutexStruct
unfolding unlock_object
unlock_by none m = returns (record m { locked = false })
unlock_by (some u) m =
    and_then (unlock_object (m.owns u) u (record m { ulock = none })) (delete_object u)

unfoldable pub mutex_unlock : MutexStruct → Outcome MutexStruct
unfolding unlock_by
mutex_unlock m = unlock_by m.ulock m

-- The first part of cond_wait, up to the sleep: the status and, where the caller sleeps, its lock.
unfoldable pub cond_wait : MutexStruct → Outcome (Option ℕ × MutexStruct)
unfolding unlock_object
cond_wait m =
    if m.found m.calls
    then and_then
        (unlock_object (some true) m.calls (record m {
          ulock = some m.calls;
          owns = assign m.owns m.calls (some true);
          calls = m.calls + 1;
        }))
        (λ m'. returns (some m.calls, m'))
    else returns (none, record m { calls = m.calls + 1 })

-- The status of a cond_wait that does not sleep is -ENOMEM, and 0 after the wake-up.
abbrev pub wait_status : Option ℕ → ℤ
wait_status none = enomem
wait_status (some u) = pos 0

-- The second part, from the wake-up on: the mutex is locked again through the object.
unfoldable pub relock : Option Bool → ℕ → MutexStruct → Outcome MutexStruct
relock none u m = faults
relock (some _) u m =
    if m.locked
    then blocks
    else returns (record m { locked = true; owns = assign m.owns u (some true) })

unfoldable pub cond_wait_wake : Option ℕ → MutexStruct → Outcome MutexStruct
unfolding relock
cond_wait_wake none m = returns m
cond_wait_wake (some u) m = relock (m.owns u) u m
