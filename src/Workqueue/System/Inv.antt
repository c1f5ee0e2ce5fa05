-- ===== src/Workqueue/System/Inv.antt =====
-- The invariant of the work queue and its threads (core/workqueue.c), kept by every step.
use mathlib.Core.Path.{subst}
use gnuweeb_bot.Common.{ℕ, ◌<◌, ◌≡◌, refl, sym, ap, true, false, Option, some, List, arith}
use gnuweeb_bot.Common.Int.{ℤ}
use gnuweeb_bot.Common.Word.{u32_sub}
use gnuweeb_bot.Workqueue.{Workqueue, Work, Call, Signal}
use gnuweeb_bot.Workqueue.Worker.{WorkerState, unborn, running, worker_step}
use gnuweeb_bot.Workqueue.Moves.{Move, worker_step-Move, worker_step-born}
use gnuweeb_bot.Workqueue.Grown.{Lap, stops, sleeps, accepts, queue_work_lap-Lap}
use gnuweeb_bot.Workqueue.Submit.{queue_work_lap, queue_work_wake}
use gnuweeb_bot.Workqueue.WaitAll.{wait_all_begin, wait_all_wake}
use gnuweeb_bot.Workqueue.Destroy.{destroy_begin}
use gnuweeb_bot.Workqueue.Store.{Stored, accept-Stored, take-Stored, destroy_begin_lem}
use gnuweeb_bot.Workqueue.System.{
  idle, queued, System, after_work, log_accepted, log_taken, after_lap, Step, submit, retry,
  wait_all, wait_again, work, destroy, Reach, here, next,
}
use gnuweeb_bot.Workqueue.System.Count.{
  Counted, enter_queue, same_counts, leave_queue, Lap-Counted, Move-Counted, room,
}

module _ {A : Type 0} where
  abbrev pub StoredIn : Workqueue A → List (Work A) → List (Work A) → List (Call A) → Type 0
  StoredIn wq = Stored wq.should_stop wq.attr.max_pending_works wq.work_list wq.mask wq.head wq.tail

  pub record Inv (n q : ℕ) (s : System A) : Type 0 where
    pub counted : Counted n q s.wq s.worker s.queuer
    pub stored : StoredIn s.wq s.accepted s.taken s.cleared

  module _ {accepted taken : List (Work A)} {cleared : List (Call A)} where
    Lap-Stored :
        (wq : Workqueue A) (job : Work A) (out : Option ℤ × Workqueue A × List Signal)
        → Lap wq job out
        → StoredIn wq accepted taken cleared
        → StoredIn out.1 (log_accepted out.0 job accepted) taken cleared
    Lap-Stored wq job out (stops _ e) v = rw e v
    Lap-Stored wq job out (sleeps _ _ e) v = rw e v
    Lap-Stored wq job out (accepts workers signals going free g e) v =
        rw e (accept-Stored job going (ground arith) v)

    Move-Stored :
        (before state : WorkerState A) (wq wq' : Workqueue A)
        → Move before wq state wq'
        → StoredIn wq accepted taken cleared
        → StoredIn wq' accepted (log_taken state taken) cleared
    Move-Stored before (running job) wq wq' m v =
        let (differ, read, at) = m.took in
        let (oldest, found, v') = take-Stored differ v in
        let same : oldest ≡ job = cc in
        subst (λ w. StoredIn w accepted (log_taken (running job) taken) cleared) (sym m.same)
          (rw (at, ← same) v')
    Move-Stored before unborn wq wq' m v =
        subst (λ w. StoredIn w accepted taken cleared) (sym m.same) (rw m.took v)
    Move-Stored before state wq wq' m v =
        subst (λ w. StoredIn w accepted taken cleared) (sym m.same) (rw m.took v)

  module _ {n q : ℕ} {s : System A} (inv : Inv n q s) where
    submit-Inv :
        (create : ℕ → ℤ) (i : ℕ) (job : Work A)
        → i < q
        → s.queuer i ≡ idle
        → Inv n q (after_lap s i job (queue_work_lap create s.wq job))
    submit-Inv create i job h e =
        let lap = queue_work_lap-Lap create s.wq job in
        record {
          counted = Lap-Counted s.queuer i job _ h lap (enter_queue i h e inv.counted);
          stored = Lap-Stored s.wq job _ lap inv.stored;
        }

    retry-Inv :
        (create : ℕ → ℤ) (i : ℕ) (job : Work A)
        → i < q
        → s.queuer i ≡ queued job
        → Inv n q (after_lap s i job (queue_work_wake create s.wq job))
    unfolding queue_work_wake
    retry-Inv create i job h e =
        let woken = record (s.wq) { nr_sleeping_queuers = u32_sub s.wq.nr_sleeping_queuers 1 } in
        let lap = queue_work_lap-Lap create woken job in
        record {
          counted = Lap-Counted s.queuer i job _ h lap (leave_queue i (queued job) h e inv.counted);
          stored = Lap-Stored woken job _ lap inv.stored;
        }

    wait_all-Inv :
        (wq : Workqueue A)
        → wq ≡ record (s.wq) {
          queue_is_blocked = wq.queue_is_blocked;
          wait_all_is_waiting = wq.wait_all_is_waiting;
        }
        → Inv n q (record s { wq = wq })
    wait_all-Inv wq e = record {
      counted =
          same_counts wq (ap (λ (w : Workqueue A). w.workers) e)
            (ap (λ (w : Workqueue A). w.nr_sleeping_workers) e)
            (ap (λ (w : Workqueue A). w.nr_online_workers) e)
            (ap (λ (w : Workqueue A). w.nr_running_workers) e)
            (ap (λ (w : Workqueue A). w.nr_sleeping_queuers) e) inv.counted;
      stored = subst (λ w. StoredIn w s.accepted s.taken s.cleared) (sym e) inv.stored;
    }

    work-Inv :
        (i : ℕ) (state : WorkerState A) (wq : Workqueue A) (signals : List Signal)
        → i < n
        → worker_step (s.worker i) s.wq ≡ some (state, wq, signals)
        → Inv n q (after_work s i state wq)
    work-Inv i state wq signals h e =
        let move = worker_step-Move (s.worker i) state s.wq wq signals (room i h inv.counted) e in
        record {
          counted =
              Move-Counted i state wq h (worker_step-born (s.worker i) s.wq e) move inv.counted;
          stored = Move-Stored (s.worker i) state s.wq wq move inv.stored;
        }

    going-Stored :
        s.wq.should_stop ≡ false
        → Stored false s.wq.attr.max_pending_works s.wq.work_list s.wq.mask s.wq.head s.wq.tail
            s.accepted s.taken s.cleared
    going-Stored going =
        subst
          (λ b.
            Stored b s.wq.attr.max_pending_works s.wq.work_list s.wq.mask s.wq.head s.wq.tail
              s.accepted s.taken s.cleared)
          going inv.stored

    -- The queue that the first critical section of destroy_workqueue leaves.
    pub destroy_left :
        (calls : List (Call A)) (wq : Workqueue A) (signals : List Signal)
        → s.wq.should_stop ≡ false
        → destroy_begin s.wq ≡ some (calls, wq, signals)
        → wq ≡ record (s.wq) { should_stop = true; head = s.wq.tail }
    destroy_left calls wq signals going e =
        let (calls', runs, v') = destroy_begin_lem s.wq (going-Stored going) in cc

    destroy-Inv :
        (calls : List (Call A)) (wq : Workqueue A) (signals : List Signal)
        → s.wq.should_stop ≡ false
        → destroy_begin s.wq ≡ some (calls, wq, signals)
        → Inv n q (record s { wq = wq; cleared = calls })
    destroy-Inv calls wq signals going e =
        let (calls', runs, v') = destroy_begin_lem s.wq (going-Stored going) in
        let left = destroy_left calls wq signals going e in
        let made : calls ≡ calls' = cc in
        record {
          counted =
              subst (λ w. Counted n q w s.worker s.queuer) (sym left)
                (same_counts _ refl refl refl refl refl inv.counted);
          stored = rw made (subst (λ w. StoredIn w s.accepted s.taken calls') (sym left) v');
        }

  -- Every step of every thread keeps the counters right and the works accounted for.
  pub Step-Inv : {n q : ℕ} {s t : System A} → Inv n q s → Step n q s t → Inv n q t
  unfolding wait_all_begin wait_all_wake
  Step-Inv inv (submit create i job h e) = submit-Inv inv create i job h e
  Step-Inv inv (retry create i job h e) = retry-Inv inv create i job h e
  Step-Inv inv wait_all = wait_all-Inv inv _ (ground arith)
  Step-Inv inv wait_again = wait_all-Inv inv _ (ground arith)
  Step-Inv inv (work i state wq signals h e) = work-Inv inv i state wq signals h e
  Step-Inv inv (destroy calls wq signals going e) = destroy-Inv inv calls wq signals going e

  -- So does every run.
  pub Reach-Inv : {n q : ℕ} {start s : System A} → Inv n q start → Reach n q start s → Inv n q s
  Reach-Inv inv here = inv
  Reach-Inv inv (next r step) = Step-Inv (Reach-Inv inv r) step
