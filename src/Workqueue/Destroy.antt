-- ===== src/Workqueue/Destroy.antt =====
-- clear_pending_works, wake_up_all_workers, join_all_workers and destroy_workqueue
-- (core/workqueue.c)
pub mod Join
use gnuweeb_bot.Common.{
  ℕ, zero, suc, ◌+◌, Bool, true, false, not, ◌&&◌, Option, none, some, List, [], ◌∷◌, ◌++◌, ltb,
  ◌==◌, bit_and, if◌then◌else◌, get_elem?,
}
use gnuweeb_bot.Common.Word.{u32_add}
use gnuweeb_bot.Workqueue.{
  Workqueue, WorkerThread, Work, Call, delete, Signal, signal, broadcast, worker_cond,
  wait_all_cond,
}

module _ {A : Type 0} where
  unfoldable pub delete_calls : Work A → List (Call A)
  delete_calls work = elim work.deleter [ none ↦ [] | some deleter ↦ delete deleter work.arg ∷ [] ]

  -- `none` means that the fuel ran out, or a read outside the list.
  unfoldable pub clear_pending_works : ℕ → Workqueue A → Option (List (Call A) × Workqueue A)
  unfolding delete_calls
  clear_pending_works zero wq = none
  clear_pending_works (suc fuel) wq =
      let rest = clear_pending_works fuel (record wq { head = u32_add wq.head 1 }) in
      if wq.head == wq.tail
      then some ([], wq)
      else elim (get_elem? wq.work_list (bit_and wq.head wq.mask)) [
        | none ↦ none
        | some work ↦ elim rest [
          | none ↦ none
          | some (calls, wq') ↦ some (delete_calls work ++ calls, wq')
        ]
      ]

  unfoldable pub wake_up_all_workers : Workqueue A → List Signal
  wake_up_all_workers wq =
      (if wq.nr_sleeping_workers == 1
        then signal worker_cond ∷ []
        else if ltb 1 wq.nr_sleeping_workers
        then broadcast worker_cond ∷ []
        else [])
      ++ (if wq.wait_all_is_waiting then broadcast wait_all_cond ∷ [] else [])

  -- A list of `mask + 1` works takes at most that many laps, and a last test.
  abbrev pub clear_fuel : Workqueue A → ℕ
  clear_fuel wq = wq.mask + 2

  -- The first critical section of `destroy_workqueue`.
  unfoldable pub destroy_begin : Workqueue A → Option (List (Call A) × Workqueue A × List Signal)
  unfolding clear_pending_works wake_up_all_workers
  destroy_begin wq = elim (clear_pending_works (clear_fuel wq) (record wq { should_stop = true })) [
    | none ↦ none
    | some (calls, wq') ↦ some (calls, wq', wake_up_all_workers wq')
  ]

-- The joins, in order, from slot `i` on. `returned` says which slot's address the thread of a slot
-- returns. `none` is a join of a thread that was never created, or the failure of
-- `assert(tmp_ret == worker)` or of `assert(worker->id == i)`.
module _ (returned : ℕ → ℕ) where
  unfoldable pub join_all_workers_from : ℕ → List WorkerThread → Option (List ℕ)
  join_all_workers_from i [] = some []
  join_all_workers_from i (worker ∷ workers) =
      let rest = join_all_workers_from (i + 1) workers in
      if worker.wq
      then (if worker.thread && (returned i == i && worker.id == i)
          then elim rest [ none ↦ none | some joined ↦ some (i ∷ joined) ]
          else none)
      else rest

  unfoldable pub join_all_workers : List WorkerThread → Option (List ℕ)
  unfolding join_all_workers_from
  join_all_workers workers = join_all_workers_from 0 workers
