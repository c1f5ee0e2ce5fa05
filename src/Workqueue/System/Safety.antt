-- ===== src/Workqueue/System/Safety.antt =====
-- What holds in every state of the work queue and its threads (core/workqueue.c).
use gnuweeb_bot.Common.{
  ℕ, ◌≤◌, ◌<◌, ◌≡◌, ◌≢◌, refl, sym, ◌∙◌, true, false, none, List, [], ◌∷◌, ◌++◌, append-nil, arith,
  Bool-cases, inl, inr, length, ◌==◌,
}
use gnuweeb_bot.Common.Family.{total, total-zero}
use gnuweeb_bot.Common.Circular.{counters_differ, is_empty}
use gnuweeb_bot.Workqueue.{Workqueue, Work, Call}
use gnuweeb_bot.Workqueue.Worker.{
  WorkerState, unborn, starting, asleep, finished, running, worker_step, worker_turn, finish_work,
}
use gnuweeb_bot.Workqueue.Moves.{is_asleep, is_running, is_online}
use gnuweeb_bot.Workqueue.WaitAll.{wait_all_lap, wait_all_begin, wait_all_wake}
use gnuweeb_bot.Workqueue.Store.{take-Stored, all_deletes}
use gnuweeb_bot.Workqueue.System.{System, Reach}
use gnuweeb_bot.Workqueue.System.Count.{is_queued}
use gnuweeb_bot.Workqueue.System.Inv.{Inv, StoredIn, Reach-Inv}

-- What has become of the works accepted.
pub record Accounted {A : Type 0} (s : System A) : Type 0 where
  pub dropped : List (Work A)
  pub pending : List (Work A)
  pub order : s.accepted ≡ s.taken ++ (dropped ++ pending)
  pub calls : s.cleared ≡ all_deletes dropped
  pub bounded : length pending ≤ s.wq.attr.max_pending_works
  pub going : s.wq.should_stop ≡ false → dropped ≡ []
  pub stopped : s.wq.should_stop ≡ true → pending ≡ []

none_pending : {A : Type 0} (works : List (Work A)) → is_empty works ≡ true → works ≡ []
none_pending [] h = refl
none_pending (work ∷ works) h = cc

turn_total :
    {A : Type 0} (wq : Workqueue A) {accepted taken : List (Work A)} {cleared : List (Call A)}
    → StoredIn wq accepted taken cleared
    → worker_turn wq ≢ none
unfolding worker_turn
turn_total wq v = elim (Bool-cases (wq.head == wq.tail)) [
  | inl empty ↦ ground arith
  | inr more ↦ let (work, read, _) = take-Stored more v in ground arith
]

step_total :
    {A : Type 0} (state : WorkerState A) (wq : Workqueue A) {accepted taken : List (Work A)}
    {cleared : List (Call A)}
    → StoredIn wq accepted taken cleared
    → state ≢ unborn
    → state ≢ finished
    → worker_step state wq ≢ none
unfolding worker_step
step_total unborn wq v born live = absurd (born refl)
step_total finished wq v born live = absurd (live refl)
step_total starting wq v born live = turn_total _ v
step_total asleep wq v born live = turn_total _ v
step_total (running work) wq v born live = ground (arith, turn_total (finish_work wq).0 v)

module _ {A : Type 0} {n q : ℕ} {start s : System A} (inv : Inv n q start)
    (r : Reach n q start s) where
  -- From a good start, in every order of steps: the works accepted are, in order of acceptance,
  -- those taken by workers, then those whose deleters destroy_workqueue has called, then those
  -- pending, of which there are at most `max_pending_works`. None is dropped before the stop, and
  -- none is pending after it.
  pub works_in_order : Accounted s
  works_in_order =
      let v = (Reach-Inv inv r).stored in
      record {
        dropped = v.dropped;
        pending = v.pending;
        order = v.order;
        calls = v.calls;
        bounded = omega (arith, v.ring.room, v.capacity);
        going = v.going;
        stopped = v.stopped;
      }

  -- From a good start, in every order of steps, the four counters are the numbers of threads that
  -- sleep, are online, run a work, and sleep in queue_work.
  pub counters_exact :
      (s.wq.nr_sleeping_workers ≡ total is_asleep n s.worker)
      × (s.wq.nr_online_workers ≡ total is_online n s.worker)
      × (s.wq.nr_running_workers ≡ total is_running n s.worker)
      × (s.wq.nr_sleeping_queuers ≡ total is_queued q s.queuer)
  counters_exact = let c = (Reach-Inv inv r).counted in (c.sleeping, c.online, c.runs, c.queuers)

  Done : Type 0
  Done = (s.accepted ≡ s.taken) × ((i : ℕ) → i < n → is_running (s.worker i) ≡ 0)

  lap-Done : s.wq.should_stop ≡ false → (wait_all_lap s.wq).0 ≡ true → Done
  unfolding wait_all_lap Done
  lap-Done going returns =
      let here = Reach-Inv inv r in
      let v = here.stored in
      let same : s.wq.head ≡ s.wq.tail = ground arith in
      let idle : s.wq.nr_running_workers ≡ 0 = ground arith in
      (
        v.order
            ∙ rw
                (
                  v.going going,
                  none_pending v.pending (ground (arith, counters_differ v.pending v.ring)),
                )
                (append-nil s.taken),
        λ i h. total-zero is_running n s.worker i (sym here.counted.runs ∙ idle) h,
      )

  -- From a good start, in every order of steps: where wait_all_work_done returns while the queue is
  -- not stopped, at once or after a wait that may have ended for no reason, every work accepted has
  -- been taken and no worker runs one.
  pub wait_all_waits :
      s.wq.should_stop ≡ false
      → ((wait_all_begin s.wq).0 ≡ true
          → (s.accepted ≡ s.taken) × ((i : ℕ) → i < n → is_running (s.worker i) ≡ 0))
        × ((wait_all_wake s.wq).0 ≡ true
            → (s.accepted ≡ s.taken) × ((i : ℕ) → i < n → is_running (s.worker i) ≡ 0))
  unfolding wait_all_begin wait_all_wake wait_all_lap Done
  wait_all_waits going =
      (λ returns. lap-Done going (ground arith), λ returns. lap-Done going (ground arith))

  -- From a good start, in every order of steps: each worker thread that is not finished can take
  -- its next step, which reads no work outside the list.
  pub worker_step_total :
      (i : ℕ) → s.worker i ≢ unborn → s.worker i ≢ finished → worker_step (s.worker i) s.wq ≢ none
  worker_step_total i = step_total (s.worker i) s.wq (Reach-Inv inv r).stored
