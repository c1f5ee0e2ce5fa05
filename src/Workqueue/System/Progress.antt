-- ===== src/Workqueue/System/Progress.antt =====
-- While works are pending a worker can take one (worker_func of core/workqueue.c).
use gnuweeb_bot.Common.{
  ℕ, ◌<◌, ◌≡◌, ◌≢◌, refl, false, some, List, [], ◌++◌, ◌==◌, arith, bit_and, get_elem?,
}
use gnuweeb_bot.Common.Word.{u32_add, u32_sub}
use gnuweeb_bot.Workqueue.{Workqueue, Work, Call, Signal}
use gnuweeb_bot.Workqueue.Worker.{
  WorkerState, unborn, starting, asleep, finished, running, worker_step, worker_turn, finish_work,
}
use gnuweeb_bot.Workqueue.Store.{take-Stored}
use gnuweeb_bot.Workqueue.System.{System}
use gnuweeb_bot.Workqueue.System.Inv.{Inv, StoredIn}
use gnuweeb_bot.Workqueue.System.Manned.{Manned, StaffedRun, StaffedRun-Manned}

module _ {A : Type 0} where
  -- The queue that a worker leaves when it takes a work.
  abbrev took : Workqueue A → Workqueue A
  took wq = record wq {
    head = u32_add wq.head 1;
    nr_running_workers = u32_add wq.nr_running_workers 1;
  }

  turn_takes :
      (job : Work A) (wq : Workqueue A)
      → wq.should_stop ≡ false
      → (wq.head == wq.tail) ≡ false
      → get_elem? wq.work_list (bit_and wq.head wq.mask) ≡ some job
      → worker_turn wq ≡ some (running job, took wq, [])
  unfolding worker_turn
  turn_takes job wq going more read = ground arith

  -- The next step of a thread that is born takes the oldest work, if there is one and the queue is
  -- not stopped.
  pub step_takes :
      (state : WorkerState A) (wq : Workqueue A) {accepted taken : List (Work A)}
      {cleared : List (Call A)}
      → StoredIn wq accepted taken cleared
      → state ≢ unborn
      → state ≢ finished
      → wq.should_stop ≡ false
      → (wq.head == wq.tail) ≡ false
      → (job : Work A) × (wq' : Workqueue A) × (signals : List Signal) × (get_elem? wq.work_list
            (bit_and wq.head wq.mask)
          ≡ some job)
        × (worker_step state wq ≡ some (running job, wq', signals))
  unfolding worker_step finish_work
  step_takes unborn wq v born live going more = absurd (born refl)
  step_takes finished wq v born live going more = absurd (live refl)
  step_takes starting wq v born live going more =
      let (job, read, _) = take-Stored more v in
      let wq' = record wq { nr_online_workers = u32_add wq.nr_online_workers 1 } in
      (job, _, _, read, turn_takes job wq' going more read)
  step_takes asleep wq v born live going more =
      let (job, read, _) = take-Stored more v in
      let wq' = record wq { nr_sleeping_workers = u32_sub wq.nr_sleeping_workers 1 } in
      (job, _, _, read, turn_takes job wq' going more read)
  step_takes (running last) wq v born live going more =
      let (job, read, _) = take-Stored more v in
      let ended = finish_work wq in
      (job, took (ended.0), ended.1 ++ [], read, rw (turn_takes job ended.0 going more read))

module _ {A : Type 0} {n q : ℕ} {start s : System A} where
  -- From a good start with a slot for a worker, in every order of steps in which the calls of
  -- thread_create succeed: while works are pending in a queue that is not stopped, there is a worker
  -- whose next step takes the oldest of them.
  pub pending_has_worker :
      0 < n
      → Inv n q start
      → Manned n start
      → StaffedRun n q start s
      → s.wq.should_stop ≡ false
      → (s.wq.head == s.wq.tail) ≡ false
      → (i : ℕ) × (i < n)
        × (job : Work A) × (wq' : Workqueue A) × (signals : List Signal) × (get_elem? s.wq.work_list
              (bit_and s.wq.head s.wq.mask)
            ≡ some job)
        × (worker_step (s.worker i) s.wq ≡ some (running job, wq', signals))
  pending_has_worker some_slot inv m r going more =
      let (inv', m') = StaffedRun-Manned some_slot inv m r in
      let (i, inside, taken) = m'.hands more in
      let (job, wq', signals, read, steps) =
        step_takes (s.worker i) s.wq inv'.stored (m'.claimed i taken) (m'.going going i) going
          more in
      (i, omega (arith, inv'.counted.slots), job, wq', signals, read, steps)
