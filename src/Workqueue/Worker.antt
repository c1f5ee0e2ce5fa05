-- ===== src/Workqueue/Worker.antt =====
-- wait_for_event, wake_up_all_queue_work_callers and worker_func (core/workqueue.c)
use gnuweeb_bot.Common.{
  not, ◌&&◌, Option, none, some, List, [], ◌∷◌, ◌++◌, ltb, ◌==◌, bit_and, if◌then◌else◌, get_elem?,
}
use gnuweeb_bot.Common.Word.{u32_add, u32_sub}
use gnuweeb_bot.Workqueue.{
  Workqueue, Work, Call, run, delete, Signal, signal, broadcast, wait_all_cond, queue_work_cond,
}

-- How one lap of `wait_for_event` ends: with false, with true, or in the wait on `worker_cond`.
pub data Event : Type 0 where
  leave ready sleep : Event

-- Where a worker thread stands while it does not hold the lock. A slot with no thread is `unborn`.
pub data WorkerState (A : Type 0) : Type 0 where
  unborn starting asleep finished : WorkerState A
  running : Work A → WorkerState A

module _ {A : Type 0} where
  unfoldable pub wait_for_event_lap : Workqueue A → Event × Workqueue A × List Signal
  wait_for_event_lap wq =
      if wq.should_stop && not wq.queue_is_blocked
      then (leave, wq, [])
      else if not (wq.head == wq.tail)
      then (ready, wq, [])
      else (
        sleep,
        record wq { nr_sleeping_workers = u32_add wq.nr_sleeping_workers 1 },
        (if wq.wait_all_is_waiting then broadcast wait_all_cond ∷ [] else []),
      )

  -- `work = wq->work_list[wq->head++ & wq->mask]; wq->nr_running_workers++`
  unfoldable pub take_work : Workqueue A → Option (Work A × Workqueue A)
  take_work wq = elim (get_elem? wq.work_list (bit_and wq.head wq.mask)) [
    | none ↦ none
    | some work ↦ some (
      work,
      record wq { head = u32_add wq.head 1; nr_running_workers = u32_add wq.nr_running_workers 1 },
    )
  ]

  -- The loop of `worker_func` from its test on, up to the next point where the lock is given up.
  worker_react :
      Event → Workqueue A → List Signal → Option (WorkerState A × Workqueue A × List Signal)
  unfolding take_work
  worker_react leave wq signals =
      some (finished, record wq { nr_online_workers = u32_sub wq.nr_online_workers 1 }, signals)
  worker_react sleep wq signals = some (asleep, wq, signals)
  worker_react ready wq signals = elim (take_work wq) [
    | none ↦ none
    | some (work, wq') ↦ some (running work, wq', signals)
  ]

  unfoldable pub worker_turn : Workqueue A → Option (WorkerState A × Workqueue A × List Signal)
  unfolding wait_for_event_lap worker_react
  worker_turn wq =
      let (event, wq', signals) = wait_for_event_lap wq in worker_react event wq' signals

  unfoldable pub wake_up_all_queue_work_callers : Workqueue A → List Signal
  wake_up_all_queue_work_callers wq =
      if wq.nr_running_workers == 0
      then []
      else if wq.nr_sleeping_queuers == 1
      then signal queue_work_cond ∷ []
      else if ltb 1 wq.nr_sleeping_queuers
      then broadcast queue_work_cond ∷ []
      else []

  -- What a worker calls without the lock.
  unfoldable pub work_calls : Work A → List (Call A)
  work_calls work =
      (elim work.func [ none ↦ [] | some func ↦ run func work.arg ∷ [] ])
      ++ (elim work.deleter [ none ↦ [] | some deleter ↦ delete deleter work.arg ∷ [] ])

  -- The tail of the loop's body, after the calls.
  unfoldable pub finish_work : Workqueue A → Workqueue A × List Signal
  unfolding wake_up_all_queue_work_callers
  finish_work wq =
      let wq' = record wq { nr_running_workers = u32_sub wq.nr_running_workers 1 } in
      (wq', wake_up_all_queue_work_callers wq')

  -- One critical section of a worker: from where it stands to where it gives the lock up again.
  unfoldable pub worker_step :
      WorkerState A → Workqueue A → Option (WorkerState A × Workqueue A × List Signal)
  unfolding worker_turn finish_work
  worker_step unborn wq = none
  worker_step finished wq = none
  worker_step starting wq =
      worker_turn (record wq { nr_online_workers = u32_add wq.nr_online_workers 1 })
  worker_step asleep wq =
      worker_turn (record wq { nr_sleeping_workers = u32_sub wq.nr_sleeping_workers 1 })
  worker_step (running work) wq =
      let (wq', signals) = finish_work wq in
      elim (worker_turn wq') [
        | none ↦ none
        | some (state, wq'', more) ↦ some (state, wq'', signals ++ more)
      ]
