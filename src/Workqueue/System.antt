-- ===== src/Workqueue/System.antt =====
-- The work queue with its threads (core/workqueue.c): workers, callers of `queue_work`, callers of
-- `wait_all_work_done` and the caller of `destroy_workqueue`, interleaved in any order. Everything
-- runs under `work_list_lock` but the waits and the callbacks, so one critical section is one step.
-- A wait may end at any moment, as POSIX allows, and one that waits for all works even after another
-- has reset `wait_all_is_waiting`: the signals a step sends restrict nothing. System/Wake says which
-- steps send them.
pub mod Count
pub mod Inv
pub mod Safety
pub mod Wake
pub mod Manned
pub mod Progress
pub mod Joined
use gnuweeb_bot.Common.{
  ℕ, ◌<◌, ◌≡◌, Bool, true, false, not, ◌&&◌, Option, none, some, List, [], ◌∷◌, ◌++◌, if◌then◌else◌,
  get_elem?,
}
use gnuweeb_bot.Common.Int.{ℤ, pos, eqb_ℤ}
use gnuweeb_bot.Common.Family.{assign}
use gnuweeb_bot.Workqueue.{Workqueue, WorkerThread, Work, Call, Signal}
use gnuweeb_bot.Workqueue.Grown.{wq_at, thread_at}
use gnuweeb_bot.Workqueue.Submit.{queue_work_lap, queue_work_wake}
use gnuweeb_bot.Workqueue.WaitAll.{wait_all_begin, wait_all_wake}
use gnuweeb_bot.Workqueue.Worker.{WorkerState, unborn, starting, running, worker_step}
use gnuweeb_bot.Workqueue.Destroy.{destroy_begin}

-- A caller of `queue_work` outside the lock: not in a call, or asleep with its work.
pub data QueuerState (A : Type 0) : Type 0 where
  idle : QueuerState A
  queued : Work A → QueuerState A

-- Beside the queue and its threads: the works accepted and those taken by workers, in order, and
-- the calls that `clear_pending_works` has made.
pub record System (A : Type 0) : Type 0 where
  pub wq : Workqueue A
  pub worker : ℕ → WorkerState A
  pub queuer : ℕ → QueuerState A
  pub accepted : List (Work A)
  pub taken : List (Work A)
  pub cleared : List (Call A)

module _ {A : Type 0} where
  -- A slot that has just been claimed, with success, has a new thread.
  abbrev pub spawn : List WorkerThread → List WorkerThread → (ℕ → WorkerState A) → ℕ → WorkerState A
  spawn before after worker i =
      if not (wq_at before i) && (wq_at after i && thread_at after i) then starting else worker i

  abbrev pub settle : Option ℤ → Work A → QueuerState A
  settle none work = queued work
  settle (some ret) work = idle

  abbrev pub log_accepted : Option ℤ → Work A → List (Work A) → List (Work A)
  log_accepted none work works = works
  log_accepted (some ret) work works = if eqb_ℤ ret (pos 0) then works ++ work ∷ [] else works

  -- What a lap of `queue_work` by caller `i` leaves.
  abbrev pub after_lap : System A → ℕ → Work A → Option ℤ × Workqueue A × List Signal → System A
  after_lap s i work (ret, wq, signals) = record s {
    wq = wq;
    worker = spawn s.wq.workers wq.workers s.worker;
    queuer = assign s.queuer i (settle ret work);
    accepted = log_accepted ret work s.accepted;
  }

  abbrev pub log_taken : WorkerState A → List (Work A) → List (Work A)
  log_taken (running work) works = works ++ work ∷ []
  log_taken _ works = works

  -- What a critical section of worker `i` leaves.
  abbrev pub after_work : System A → ℕ → WorkerState A → Workqueue A → System A
  after_work s i state wq = record s {
    wq = wq;
    worker = assign s.worker i state;
    taken = log_taken state s.taken;
  }

-- `n` slots for workers, `q` callers of `queue_work`.
pub data Step {A : Type 0} (n q : ℕ) (s : System A) : System A → Type 0 where
  submit :
      (create : ℕ → ℤ) (i : ℕ) (work : Work A)
      → i < q
      → s.queuer i ≡ idle
      → Step n q s (after_lap s i work (queue_work_lap create s.wq work))
  retry :
      (create : ℕ → ℤ) (i : ℕ) (work : Work A)
      → i < q
      → s.queuer i ≡ queued work
      → Step n q s (after_lap s i work (queue_work_wake create s.wq work))
  wait_all : Step n q s (record s { wq = (wait_all_begin s.wq).1 })
  wait_again : Step n q s (record s { wq = (wait_all_wake s.wq).1 })
  work :
      (i : ℕ) (state : WorkerState A) (wq : Workqueue A) (signals : List Signal)
      → i < n
      → worker_step (s.worker i) s.wq ≡ some (state, wq, signals)
      → Step n q s (after_work s i state wq)
  destroy :
      (calls : List (Call A)) (wq : Workqueue A) (signals : List Signal)
      → s.wq.should_stop ≡ false
      → destroy_begin s.wq ≡ some (calls, wq, signals)
      → Step n q s (record s { wq = wq; cleared = calls })

-- The states reached from a start.
pub data Reach {A : Type 0} (n q : ℕ) (start : System A) : System A → Type 0 where
  here : Reach n q start start
  next : {s t : System A} → Reach n q start s → Step n q s t → Reach n q start t
