-- ===== src/Workqueue/Tests.antt =====
-- A small queue of core/workqueue.c at work: two slots for works, one worker, one caller.
use gnuweeb_bot.Common.{
  ltb, ◌&&◌, ℕ, ◌<◌, ◌≡◌, refl, true, false, none, some, List, [], ◌∷◌, arith, get_elem?,
}
use gnuweeb_bot.Common.Int.{ℤ, pos, negsuc}
use gnuweeb_bot.Common.Family.{total, assign}
use gnuweeb_bot.Common.Circular.{fresh-Circular}
use gnuweeb_bot.Workqueue.{Workqueue, WorkqueueAttr, Work, Signal, signal, queue_work_cond}
use gnuweeb_bot.Workqueue.Worker.{unborn, starting, asleep, running, worker_step, finish_work}
use gnuweeb_bot.Workqueue.Submit.{queue_work_lap}
use gnuweeb_bot.Workqueue.System.{
  System, idle, Reach, here, next, submit, work, after_lap, after_work,
}
use gnuweeb_bot.Workqueue.System.Inv.{Inv}
use gnuweeb_bot.Workqueue.System.Safety.{Accounted, works_in_order, counters_exact, wait_all_waits}
use gnuweeb_bot.Workqueue.System.Wake.{wakes_callers, wakes_while_others_run}
use gnuweeb_bot.Workqueue.System.Count.{is_queued}
use gnuweeb_bot.Workqueue.System.Manned.{Manned, StaffedRun}
use gnuweeb_bot.Workqueue.System.Progress.{pending_has_worker}
use gnuweeb_bot.Workqueue.Moves.{is_asleep, is_online, is_running}
use gnuweeb_bot.Workqueue.WaitAll.{wait_all_begin, wait_all_wake}
use gnuweeb_bot.Workqueue.Submit.Outcomes.{queue_work_lap-capacity}
use gnuweeb_bot.Workqueue.Destroy.{join_all_workers}
use gnuweeb_bot.Workqueue.Destroy.Join.{failed_spawn_breaks_join}
use gnuweeb_bot.Workqueue.System.Joined.{born_from, joins_every_thread}
use gnuweeb_bot.Workqueue.Spawn.{arm_spawn_worker, get_free_worker_slot}

abbrev attr : WorkqueueAttr
attr = record { name = "test"; flags = 0; max_threads = 1; min_threads = 1; max_pending_works = 2 }

abbrev job : ℕ → Work ℕ
job n = record { func = some 7; arg = n; deleter = some 8 }

abbrev zero_work : Work ℕ
zero_work = record { func = none; arg = 0; deleter = none }

abbrev fresh : Workqueue ℕ
fresh = record {
  should_stop = false;
  queue_is_blocked = false;
  wait_all_is_waiting = false;
  nr_sleeping_workers = 0;
  nr_sleeping_queuers = 0;
  nr_online_workers = 0;
  nr_running_workers = 0;
  attr = attr;
  workers = record { id = 0; thread = true; wq = true } ∷ [];
  mask = 1;
  head = 0;
  tail = 0;
  work_list = zero_work ∷ zero_work ∷ [];
}

abbrev begun : System ℕ
begun = record {
  wq = fresh;
  worker = assign (λ _. unborn) 0 starting;
  queuer = λ _. idle;
  accepted = [];
  taken = [];
  cleared = [];
}

begun-Inv : Inv 1 1 begun
unfolding total
begun-Inv = record {
  counted = record {
    few = omega arith;
    slots = refl;
    sleeping = refl;
    online = refl;
    runs = refl;
    queuers = refl;
    free_slots = λ i free. ground arith;
  };
  stored = record {
    bits = 1;
    dropped = [];
    pending = [];
    ring = fresh-Circular 1 1 zero_work (omega arith) refl;
    capacity = refl;
    order = refl;
    calls = refl;
    going = λ _. refl;
    stopped = λ e. cc;
  };
}

abbrev create : ℕ → ℤ
create _ = pos 0

abbrev first_queued : System ℕ
first_queued = after_lap begun 0 (job 1) (queue_work_lap create fresh (job 1))

first_reached : Reach 1 1 begun first_queued
first_reached = next here (submit create 0 (job 1) (omega arith) refl)

abbrev taken_by_worker : Workqueue ℕ
taken_by_worker = record fresh {
  nr_online_workers = 1;
  nr_running_workers = 1;
  head = 1;
  tail = 1;
  work_list = job 1 ∷ zero_work ∷ [];
}

abbrev first_runs : System ℕ
first_runs = after_work first_queued 0 (running (job 1)) taken_by_worker

first_runs-Reach : Reach 1 1 begun first_runs
unfolding queue_work_lap worker_step
first_runs-Reach =
    next first_reached (work 0 (running (job 1)) taken_by_worker [] (omega arith) refl)

first_runs_log : (first_runs.accepted ≡ job 1 ∷ []) × (first_runs.taken ≡ job 1 ∷ [])
unfolding queue_work_lap
first_runs_log = (refl, refl)

works_in_order_example : Accounted first_runs
works_in_order_example = works_in_order begun-Inv first_runs-Reach

counters_exact_example :
    (first_runs.wq.nr_sleeping_workers ≡ total is_asleep 1 first_runs.worker)
    × (first_runs.wq.nr_online_workers ≡ total is_online 1 first_runs.worker)
    × (first_runs.wq.nr_running_workers ≡ total is_running 1 first_runs.worker)
    × (first_runs.wq.nr_sleeping_queuers ≡ total is_queued 1 first_runs.queuer)
counters_exact_example = counters_exact begun-Inv first_runs-Reach

begun-Manned : Manned 1 begun
begun-Manned = record {
  going = λ goes i f. ground arith;
  claimed = λ i taken f. ground arith;
  hands = λ more. absurd (cc);
  healthy = (refl, refl, tt);
}

-- The work that has just been queued has a worker.
pending_has_worker_example :
    (i : ℕ) × (i < 1)
    × (task : Work ℕ) × (wq' : Workqueue ℕ) × (signals : List Signal) × (get_elem?
          first_queued.wq.work_list 0
        ≡ some task)
    × (worker_step (first_queued.worker i) first_queued.wq ≡ some (running task, wq', signals))
unfolding queue_work_lap
pending_has_worker_example =
    pending_has_worker (omega arith) begun-Inv begun-Manned
      (StaffedRun.next StaffedRun.here (submit create 0 (job 1) (omega arith) refl) (λ j. refl))
      refl refl

-- The worker ends the work and goes to sleep.
abbrev drained : Workqueue ℕ
drained = record taken_by_worker { nr_running_workers = 0; nr_sleeping_workers = 1 }

abbrev all_done : System ℕ
all_done = after_work first_runs 0 asleep drained

all_done-Reach : Reach 1 1 begun all_done
unfolding worker_step
all_done-Reach = next first_runs-Reach (work 0 asleep drained [] (omega arith) refl)

-- Both calls return in this state.
wait_all_returns : ((wait_all_begin all_done.wq).0 ≡ true) × ((wait_all_wake all_done.wq).0 ≡ true)
unfolding wait_all_begin wait_all_wake
wait_all_returns = (refl, refl)

wait_all_waits_example :
    ((wait_all_begin all_done.wq).0 ≡ true
      → (all_done.accepted ≡ all_done.taken)
        × ((i : ℕ) → i < 1 → is_running (all_done.worker i) ≡ 0))
    × ((wait_all_wake all_done.wq).0 ≡ true
        → (all_done.accepted ≡ all_done.taken)
          × ((i : ℕ) → i < 1 → is_running (all_done.worker i) ≡ 0))
wait_all_waits_example = wait_all_waits begun-Inv all_done-Reach refl

queue_work_lap-capacity_example : (queue_work_lap create fresh (job 1)).0 ≡ some (pos 0)
unfolding begun-Inv
queue_work_lap-capacity_example = queue_work_lap-capacity create fresh (job 1) begun-Inv.stored

-- While the first work runs the list gets full, and a caller falls asleep with a fourth work.
abbrev one_pending : System ℕ
one_pending = after_lap first_runs 0 (job 2) (queue_work_lap create first_runs.wq (job 2))

abbrev two_pending : System ℕ
two_pending = after_lap one_pending 0 (job 3) (queue_work_lap create one_pending.wq (job 3))

abbrev caller_sleeps : System ℕ
caller_sleeps = after_lap two_pending 0 (job 4) (queue_work_lap create two_pending.wq (job 4))

caller_sleeps-Reach : Reach 1 1 begun caller_sleeps
unfolding queue_work_lap
caller_sleeps-Reach =
    next
      (next (next first_runs-Reach (submit create 0 (job 2) (omega arith) refl))
        (submit create 0 (job 3) (omega arith) refl))
      (submit create 0 (job 4) (omega arith) refl)

-- The worker ends the first work and takes the second.
abbrev room_again : Workqueue ℕ
room_again = record taken_by_worker {
  nr_sleeping_queuers = 1;
  head = 2;
  tail = 3;
  work_list = job 3 ∷ job 2 ∷ [];
}

-- There is room again, and the caller sleeps on.
wakes_while_others_run_example : wakes_callers [] ≡ (
    true
    && (ltb 1 (total is_running 1 caller_sleeps.worker)
        && ltb 0 (total is_queued 1 caller_sleeps.queuer)))
unfolding queue_work_lap worker_step
wakes_while_others_run_example =
    wakes_while_others_run begun-Inv caller_sleeps-Reach
      (work 0 (running (job 2)) room_again [] (omega arith) refl)

-- With another work running a sleeping caller is woken.
two_workers_wake :
    (finish_work (record taken_by_worker { nr_running_workers = 2; nr_sleeping_queuers = 1 })).1
    ≡ signal queue_work_cond ∷ []
unfolding finish_work
two_workers_wake = refl

-- The work has run, and the one thread is there to be joined.
joins_every_thread_example : join_all_workers (λ i. i) first_queued.wq.workers ≡ some (0 ∷ [])
unfolding queue_work_lap born_from
joins_every_thread_example =
    joins_every_thread (λ i. i) (λ i. refl) (omega arith) begun-Inv begun-Manned
      (StaffedRun.next StaffedRun.here (submit create 0 (job 1) (omega arith) refl) (λ j. refl))

abbrev unborn_slot : Workqueue ℕ
unborn_slot = record fresh { workers = record { id = 0; thread = false; wq = false } ∷ [] }

failed_spawn_breaks_join_example :
    join_all_workers (λ i. i) (arm_spawn_worker (λ _. negsuc 10) unborn_slot).1.workers ≡ none
unfolding get_free_worker_slot
failed_spawn_breaks_join_example =
    failed_spawn_breaks_join (λ i. i) (λ _. negsuc 10) unborn_slot 0 refl refl
