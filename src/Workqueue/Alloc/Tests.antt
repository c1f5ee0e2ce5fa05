-- ===== src/Workqueue/Alloc/Tests.antt =====
-- alloc_workqueue of core/workqueue.c for a small queue, and where a call in it fails.
use gnuweeb_bot.Common.{
  ℕ, ◌≡◌, refl, true, false, none, some, List, [], ◌∷◌, arith, if◌then◌else◌, ◌==◌,
}
use gnuweeb_bot.Common.Int.{pos, negsuc}
use gnuweeb_bot.Workqueue.{Workqueue, WorkqueueAttr, worker_cond, wait_all_cond, queue_work_cond}
use gnuweeb_bot.Workqueue.System.Inv.{Inv}
use gnuweeb_bot.RoundUp.{round_up}
use gnuweeb_bot.RoundUp.Limits.{RoundsUp, round_up_least}
use gnuweeb_bot.Workqueue.Alloc.{
  Env, Event, acquired, released, memory, lock, slots, cond, thread, Outcome, alloc_workqueue,
}
use gnuweeb_bot.Workqueue.Alloc.Start.{start, AllSucceed, alloc_workqueue-Inv}
use gnuweeb_bot.Workqueue.Alloc.Unwind.{Settles, alloc_workqueue-Settles}
use gnuweeb_bot.Workqueue.System.Manned.{Manned}

abbrev attr : WorkqueueAttr
attr = record { name = "test"; flags = 0; max_threads = 1; min_threads = 1; max_pending_works = 2 }

abbrev env : Env
env = record {
  calloc_wq = true;
  calloc_workers = true;
  mutex_init = pos 0;
  cond_init = λ _. pos 0;
  create = λ _. pos 0;
}

env-AllSucceed : AllSucceed {A = ℕ} env 0
env-AllSucceed = record {
  memory = (refl, refl);
  lock = refl;
  conds = λ _. refl;
  threads = λ _. refl;
}

alloc_workqueue-Inv_example :
    (wq : Workqueue ℕ) × (events : List Event) × (alloc_workqueue env 0 attr
      ≡ some (pos 0, some wq, events))
    × Inv 1 3 (start wq)
    × Manned 1 (start wq)
    × (wq.queue_is_blocked ≡ false)
alloc_workqueue-Inv_example =
    alloc_workqueue-Inv env 0 attr 3 env-AllSucceed (omega arith) (omega arith) (omega arith)
      (omega arith) (omega arith)

alloc_workqueue-Settles_example :
    (out : Outcome ℕ) × (alloc_workqueue (record env { mutex_init = negsuc 11 }) 0 attr ≡ some out)
    × Settles [] out
alloc_workqueue-Settles_example =
    alloc_workqueue-Settles (record env { mutex_init = negsuc 11 }) 0 attr (omega arith)
      (omega arith)

-- The second of two threads cannot be created: the first is joined, and all is given back.
alloc_gives_back :
    alloc_workqueue {A = ℕ}
      (record env { create = λ i. if i == 1 then negsuc 10 else pos 0 })
      0
      (record attr { max_threads = 2 })
    ≡ some (
      negsuc 10,
      none,
      acquired memory
          ∷ acquired lock
          ∷ acquired (cond worker_cond)
          ∷ acquired (cond wait_all_cond)
          ∷ acquired (cond queue_work_cond)
          ∷ acquired slots
          ∷ acquired (thread 0)
          ∷ released (thread 0)
          ∷ released slots
          ∷ released (cond queue_work_cond)
          ∷ released (cond wait_all_cond)
          ∷ released (cond worker_cond)
          ∷ released lock
          ∷ released memory
          ∷ [],
    )
unfolding alloc_workqueue
alloc_gives_back = refl

round_up_least_example : (p : ℕ) × (round_up 10 ≡ some p) × RoundsUp 10 p
round_up_least_example = round_up_least 10 (omega arith)

round_up_10 : round_up 10 ≡ some 16
unfolding round_up
round_up_10 = refl
