-- ===== src/Workqueue/Moves.antt =====
-- What one critical section of a worker changes (worker_func of core/workqueue.c).
use gnuweeb_bot.Common.{
  ℕ, ◌+◌, ◌≤◌, ◌<◌, ◌≡◌, ◌≢◌, false, some, List, bit_and, get_elem?, arith, ◌==◌,
}
use gnuweeb_bot.Common.Word.{u32_mod, u32_add}
use gnuweeb_bot.Workqueue.{Workqueue, Signal}
use gnuweeb_bot.Workqueue.Worker.{
  WorkerState, unborn, starting, asleep, finished, running, worker_step,
}

module _ {A : Type 0} where
  abbrev pub is_asleep : WorkerState A → ℕ
  is_asleep asleep = 1
  is_asleep _ = 0

  abbrev pub is_running : WorkerState A → ℕ
  is_running (running _) = 1
  is_running _ = 0

  abbrev pub is_online : WorkerState A → ℕ
  is_online asleep = 1
  is_online (running _) = 1
  is_online _ = 0

  -- The list side of a critical section: only a worker that comes to run has taken the oldest work.
  abbrev pub Took : Workqueue A → WorkerState A → Workqueue A → Type 0
  Took wq (running work) wq' =
      ((wq.head == wq.tail) ≡ false)
      × (get_elem? wq.work_list (bit_and wq.head wq.mask) ≡ some work)
      × (wq'.head ≡ u32_add wq.head 1)
  Took wq _ wq' = wq'.head ≡ wq.head

  pub record Move (before : WorkerState A) (wq : Workqueue A) (after : WorkerState A)
      (wq' : Workqueue A) : Type 0 where
    pub sleeping :
        wq'.nr_sleeping_workers + is_asleep before ≡ wq.nr_sleeping_workers + is_asleep after
    pub online : wq'.nr_online_workers + is_online before ≡ wq.nr_online_workers + is_online after
    pub runs : wq'.nr_running_workers + is_running before ≡ wq.nr_running_workers + is_running after
    pub took : Took wq after wq'
    pub same : wq' ≡ record wq {
      nr_sleeping_workers = wq'.nr_sleeping_workers;
      nr_online_workers = wq'.nr_online_workers;
      nr_running_workers = wq'.nr_running_workers;
      head = wq'.head;
    }

  -- The counters of the queue have room for one more thread, and count the worker itself.
  pub record HasRoom (before : WorkerState A) (wq : Workqueue A) : Type 0 where
    pub sleeping :
        (is_asleep before ≤ wq.nr_sleeping_workers) × (wq.nr_sleeping_workers + 1 < u32_mod)
    pub online : (is_online before ≤ wq.nr_online_workers) × (wq.nr_online_workers + 1 < u32_mod)
    pub runs : (is_running before ≤ wq.nr_running_workers) × (wq.nr_running_workers + 1 < u32_mod)

  -- `worker_turn` counts like a step of a thread that is online and neither asleep nor running.
  pub worker_step-Move :
      (before after : WorkerState A) (wq wq' : Workqueue A) (signals : List Signal)
      → HasRoom before wq
      → worker_step before wq ≡ some (after, wq', signals)
      → Move before wq after wq'
  unfolding worker_step
  worker_step-Move starting after wq wq' signals r e = ground arith
  worker_step-Move before after wq wq' signals r e = ground arith

  -- A slot with no thread takes no step.
  pub worker_step-born :
      (before : WorkerState A) (wq : Workqueue A) {out : WorkerState A × Workqueue A × List Signal}
      → worker_step before wq ≡ some out
      → before ≢ unborn
  unfolding worker_step
  worker_step-born unborn wq e f = cc
  worker_step-born starting wq e f = cc
  worker_step-born asleep wq e f = cc
  worker_step-born finished wq e f = cc
  worker_step-born (running work) wq e f = cc
