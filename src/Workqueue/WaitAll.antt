-- ===== src/Workqueue/WaitAll.antt =====
-- wait_all_work_done (core/workqueue.c), by the parts between its waits.
use gnuweeb_bot.Common.{Bool, true, false, not, ◌&&◌, ◌||◌, ltb, ◌==◌, if◌then◌else◌}
use gnuweeb_bot.Workqueue.{Workqueue}
use gnuweeb_bot.Workqueue.Submit.{count_pending_works}

module _ {A : Type 0} where
  -- One test of the loop: either it ends, and with it the call (`true`), or the caller sleeps on
  -- `wait_all_cond` (`false`).
  unfoldable pub wait_all_lap : Workqueue A → Bool × Workqueue A
  wait_all_lap wq =
      if (ltb 0 (count_pending_works wq) || not (wq.nr_running_workers == 0)) && not wq.should_stop
      then (false, record wq { wait_all_is_waiting = true })
      else (true, record wq { queue_is_blocked = false })

  unfoldable pub wait_all_begin : Workqueue A → Bool × Workqueue A
  unfolding wait_all_lap
  wait_all_begin wq = wait_all_lap (record wq { queue_is_blocked = true })

  -- After `cond_wait`, with the lock taken again.
  unfoldable pub wait_all_wake : Workqueue A → Bool × Workqueue A
  unfolding wait_all_lap
  wait_all_wake wq = wait_all_lap (record wq { wait_all_is_waiting = false })
