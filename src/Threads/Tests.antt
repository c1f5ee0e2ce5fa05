-- ===== src/Threads/Tests.antt =====
-- A free mutex of core/thread.cc, and a thread that waits on it.
use gnuweeb_bot.Common.{◌≡◌, refl, true, false, none}
use gnuweeb_bot.Threads.{MutexStruct, returns, throws}
use gnuweeb_bot.Threads.Wait.{wait_alone, unlock_beside, cond_wait_lem}

abbrev free_mutex : MutexStruct
free_mutex = record { locked = false; ulock = none; owns = λ _. none; calls = 3; found = λ _. true }

cond_wait_lem_example :
    (m' : MutexStruct) × (wait_alone free_mutex ≡ returns m')
    × (m'.locked ≡ false)
    × (m'.ulock ≡ none)
    × (m'.owns 3 ≡ none)
    × (unlock_beside free_mutex ≡ throws)
cond_wait_lem_example = cond_wait_lem free_mutex 3 refl refl refl refl
