-- ===== src/Workqueue/Spawn.antt =====
-- get_free_worker_slot, arm_spawn_worker and arm_worker (core/workqueue.c)
use gnuweeb_bot.Common.{
  ℕ, ◌+◌, true, Option, none, some, List, [], ◌∷◌, ◌==◌, if◌then◌else◌, modify,
}
use gnuweeb_bot.Common.Int.{ℤ, pos, is_zero}
use gnuweeb_bot.Common.Errno.{eagain}
use gnuweeb_bot.Workqueue.{Workqueue, WorkerThread, Signal, signal, worker_cond}

-- The loop over the `max_threads` slots, from slot `i` on.
unfoldable pub get_free_worker_slot_from : ℕ → List WorkerThread → Option ℕ
get_free_worker_slot_from i [] = none
get_free_worker_slot_from i (worker ∷ workers) =
    if worker.wq then get_free_worker_slot_from (i + 1) workers else some i

unfoldable pub get_free_worker_slot : List WorkerThread → Option ℕ
unfolding get_free_worker_slot_from
get_free_worker_slot workers = get_free_worker_slot_from 0 workers

-- `worker->wq = wq` and the call of `thread_create`, whose result is `ret`.
abbrev pub start_slot : ℤ → WorkerThread → WorkerThread
start_slot ret worker = record worker { wq = true; thread = is_zero ret }

-- `create` gives the result of `thread_create` for each slot.
module _ {A : Type 0} (create : ℕ → ℤ) where
  unfoldable pub arm_spawn_worker : Workqueue A → ℤ × Workqueue A
  unfolding get_free_worker_slot
  arm_spawn_worker wq = elim (get_free_worker_slot wq.workers) [
    | none ↦ (eagain, wq)
    | some i ↦ (create i, record wq { workers = modify wq.workers i (start_slot (create i)) })
  ]

  unfoldable pub arm_worker : Workqueue A → ℤ × Workqueue A × List Signal
  unfolding arm_spawn_worker
  arm_worker wq =
      let spawned = arm_spawn_worker wq in
      if wq.nr_sleeping_workers == 0
      then (spawned.0, spawned.1, [])
      else (pos 0, wq, signal worker_cond ∷ [])
