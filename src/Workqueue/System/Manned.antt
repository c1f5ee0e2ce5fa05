-- ===== src/Workqueue/System/Manned.antt =====
-- Where thread_create succeeds, a pending work has a worker that can take it (core/workqueue.c).
use gnuweeb_bot.Common.{
  ℕ, ◌<◌, ◌≡◌, ◌≢◌, sym, ◌∙◌, ap, true, false, some, List, ◌==◌, arith, Bool-cases, inl, inr,
}
use mathlib.Core.Path.{subst}
use gnuweeb_bot.Common.Int.{ℤ, pos}
use gnuweeb_bot.Common.Word.{u32_sub}
use gnuweeb_bot.Common.Family.{total-some}
use gnuweeb_bot.Workqueue.{Workqueue, WorkerThread, Work, Signal}
use gnuweeb_bot.Workqueue.Worker.{
  WorkerState, unborn, starting, asleep, finished, running, worker_step, worker_turn, finish_work,
}
use gnuweeb_bot.Workqueue.Grown.{wq_at, stops, sleeps, accepts, queue_work_lap-Lap}
use gnuweeb_bot.Workqueue.Hired.{
  HasHands, Hired, Healthy, queue_work_lap-Hired, queue_work_lap-HasHands, queue_work_lap-Healthy,
}
use gnuweeb_bot.Workqueue.Moves.{is_asleep, worker_step-Move, worker_step-born}
use gnuweeb_bot.Workqueue.Submit.{queue_work_lap, queue_work_wake}
use gnuweeb_bot.Workqueue.WaitAll.{wait_all_begin, wait_all_wake}
use gnuweeb_bot.Workqueue.System.{
  System, spawn, after_lap, after_work, Step, submit, retry, wait_all, wait_again, work, destroy,
}
use gnuweeb_bot.Workqueue.System.Count.{room}
use gnuweeb_bot.Workqueue.System.Inv.{Inv, Step-Inv, destroy_left}

module _ {A : Type 0} where
  -- No worker has ended before the stop, a claimed slot has a worker, a pending work a claimed slot, and
  -- the slots carry their numbers and are claimed exactly where they have a thread.
  pub record Manned (n : ℕ) (s : System A) : Type 0 where
    pub going : s.wq.should_stop ≡ false → (i : ℕ) → s.worker i ≢ finished
    pub claimed : (i : ℕ) → wq_at s.wq.workers i ≡ true → s.worker i ≢ unborn
    pub hands : (s.wq.head == s.wq.tail) ≡ false → HasHands s.wq.workers
    pub healthy : Healthy 0 s.wq.workers

  asleep-born : (state : WorkerState A) → is_asleep state ≢ 0 → state ≢ unborn
  asleep-born state h e = h (ap is_asleep e)

  spawn-live :
      (before after : List WorkerThread) (worker : ℕ → WorkerState A) (i : ℕ)
      → worker i ≢ finished
      → spawn before after worker i ≢ finished
  spawn-live before after worker i live e = ground arith

  spawn-born :
      (before after : List WorkerThread) (worker : ℕ → WorkerState A) (i : ℕ)
      → Hired before after
      → (wq_at before i ≡ true → worker i ≢ unborn)
      → wq_at after i ≡ true
      → spawn before after worker i ≢ unborn
  spawn-born before after worker i hired born taken = elim (Bool-cases (wq_at before i)) [
    | inl old ↦ λ e. born old (ground arith)
    | inr free ↦ λ e. ground (arith, hired i free taken)
  ]

  pub queue_work_lap-stop :
      (create : ℕ → ℤ) (wq : Workqueue A) (job : Work A)
      → (queue_work_lap create wq job).1.should_stop ≡ wq.should_stop
  queue_work_lap-stop create wq job = elim (queue_work_lap-Lap create wq job) [
    | stops _ e ↦ ap (λ o. o.1.should_stop) e
    | sleeps _ _ e ↦ ap (λ o. o.1.should_stop) e
    | accepts workers signals _ _ _ e ↦ ap (λ o. o.1.should_stop) e
  ]

  -- A worker only ends in a queue that is stopped.
  worker_step-lives :
      (before state : WorkerState A) (wq wq' : Workqueue A) (signals : List Signal)
      → worker_step before wq ≡ some (state, wq', signals)
      → (wq.should_stop ≡ false → state ≢ finished) × (state ≢ unborn)
  unfolding worker_step worker_turn finish_work
  worker_step-lives unborn state wq wq' signals e = absurd (cc)
  worker_step-lives finished state wq wq' signals e = absurd (cc)
  worker_step-lives starting state wq wq' signals e = (λ going f. ground arith, λ f. ground arith)
  worker_step-lives asleep state wq wq' signals e = (λ going f. ground arith, λ f. ground arith)
  worker_step-lives (running job) state wq wq' signals e =
      (λ going f. ground arith, λ f. ground arith)

  module _ {n q : ℕ} {s : System A} (inv : Inv n q s) (m : Manned n s) where
    -- The slot of a thread is claimed, and inside the array.
    born-HasHands : (i : ℕ) → i < n → s.worker i ≢ unborn → HasHands s.wq.workers
    born-HasHands i inside born = elim (Bool-cases (wq_at s.wq.workers i)) [
      | inl taken ↦ (i, omega (arith, inv.counted.slots), taken)
      | inr free ↦ absurd (born (inv.counted.free_slots i free))
    ]

    asleep-HasHands : s.wq.nr_sleeping_workers ≢ 0 → HasHands s.wq.workers
    asleep-HasHands h =
        let (i, inside, weight) =
          total-some is_asleep n s.worker (λ e. h (inv.counted.sleeping ∙ e)) in
        born-HasHands i inside (asleep-born (s.worker i) weight)

    -- `k` is what the caller makes of the counter of sleeping callers before its lap.
    lap-Manned :
        (create : ℕ → ℤ) (i k : ℕ) (job : Work A)
        → ((j : ℕ) → create j ≡ pos 0)
        → 0 < n
        → Manned n (
            after_lap s i job (queue_work_lap create (record s.wq { nr_sleeping_queuers = k }) job))
    lap-Manned create i k job ok some_slot =
        let wq : Workqueue A = record (s.wq) { nr_sleeping_queuers = k } in
        let after = (queue_work_lap create wq job).1.workers in
        record {
          going = λ goes j.
              spawn-live s.wq.workers after s.worker j
                (m.going (sym (queue_work_lap-stop create wq job) ∙ goes) j);
          claimed = λ j taken.
              spawn-born s.wq.workers after s.worker j (queue_work_lap-Hired create ok wq job)
                (m.claimed j) taken;
          hands = λ more.
              queue_work_lap-HasHands create ok wq job (omega (arith, inv.counted.slots))
                asleep-HasHands m.hands more;
          healthy = queue_work_lap-Healthy create ok wq job m.healthy;
        }

    work-Manned :
        (i : ℕ) (state : WorkerState A) (wq : Workqueue A) (signals : List Signal)
        → i < n
        → worker_step (s.worker i) s.wq ≡ some (state, wq, signals)
        → Manned n (after_work s i state wq)
    work-Manned i state wq signals inside e =
        let move =
          worker_step-Move (s.worker i) state s.wq wq signals (room i inside inv.counted) e in
        let slots : wq.workers ≡ s.wq.workers = ap (λ (w : Workqueue A). w.workers) move.same in
        let (lives, born) = worker_step-lives (s.worker i) state s.wq wq signals e in
        record {
          going = λ goes j. ground (
            arith,
            lives,
            m.going (sym (ap (λ (w : Workqueue A). w.should_stop) move.same) ∙ goes) j,
          );
          claimed = λ j taken.
              ground (arith, born, m.claimed j (sym (ap (λ w. wq_at w j) slots) ∙ taken));
          hands = λ more.
              subst HasHands (sym slots)
                (born-HasHands i inside (worker_step-born (s.worker i) s.wq e));
          healthy = subst (Healthy 0) (sym slots) m.healthy;
        }

  aside-Manned :
      {n : ℕ} {s : System A}
      → Manned n s
      → (wq : Workqueue A)
      → wq ≡ record (s.wq) {
        queue_is_blocked = wq.queue_is_blocked;
        wait_all_is_waiting = wq.wait_all_is_waiting;
      }
      → Manned n (record s { wq = wq })
  aside-Manned {n} {s} m wq e =
      subst (λ w. Manned n (record s { wq = w })) (sym e)
        (record { going = m.going; claimed = m.claimed; hands = m.hands; healthy = m.healthy })

  -- The calls of thread_create in a step succeed.
  abbrev pub Succeeds : {n q : ℕ} {s t : System A} → Step n q s t → Type 0
  Succeeds (submit create i job h e) = (j : ℕ) → create j ≡ pos 0
  Succeeds (retry create i job h e) = (j : ℕ) → create j ≡ pos 0
  Succeeds _ = Unit

  -- A run in which they do.
  pub data StaffedRun (n q : ℕ) (start : System A) : System A → Type 0 where
    here : StaffedRun n q start start
    next :
        {s t : System A}
        → StaffedRun n q start s
        → (step : Step n q s t) → Succeeds step
        → StaffedRun n q start t

  pub Step-Manned :
      {n q : ℕ} {s t : System A}
      → 0 < n
      → Inv n q s
      → Manned n s
      → (step : Step n q s t) → Succeeds step
      → Manned n t
  unfolding wait_all_begin wait_all_wake queue_work_wake
  Step-Manned {s = s} some_slot inv m (submit create i job h e) ok =
      lap-Manned inv m create i s.wq.nr_sleeping_queuers job ok some_slot
  Step-Manned {s = s} some_slot inv m (retry create i job h e) ok =
      lap-Manned inv m create i (u32_sub s.wq.nr_sleeping_queuers 1) job ok some_slot
  Step-Manned some_slot inv m wait_all ok = aside-Manned m _ (ground arith)
  Step-Manned some_slot inv m wait_again ok = aside-Manned m _ (ground arith)
  Step-Manned some_slot inv m (work i state wq signals h e) ok =
      work-Manned inv m i state wq signals h e
  Step-Manned {s = s} some_slot inv m (destroy calls wq signals going e) ok =
      let left = destroy_left inv calls wq signals going e in
      record {
        going = λ goes. absurd (cc);
        claimed = rw left m.claimed;
        hands = λ more. absurd (ground (arith, left));
        healthy = subst (λ (w : Workqueue A). Healthy 0 w.workers) (sym left) m.healthy;
      }

  pub StaffedRun-Manned :
      {n q : ℕ} {start s : System A}
      → 0 < n
      → Inv n q start
      → Manned n start
      → StaffedRun n q start s
      → Inv n q s × Manned n s
  StaffedRun-Manned some_slot inv m here = (inv, m)
  StaffedRun-Manned some_slot inv m (next r step ok) =
      let (inv', m') = StaffedRun-Manned some_slot inv m r in
      (Step-Inv inv' step, Step-Manned some_slot inv' m' step ok)
