-- ===== src/Workqueue/Submit.antt =====
-- count_pending_works, try_queue_work_locked and queue_work (core/workqueue.c)
pub mod Outcomes
use gnuweeb_bot.Common.{
  ℕ, Bool, not, ◌&&◌, Option, none, some, List, [], ◌∷◌, ◌++◌, leb, if◌then◌else◌, bit_and, set,
}
use gnuweeb_bot.Common.Int.{ℤ, pos, is_nonpositive, eqb_ℤ}
use gnuweeb_bot.Common.Errno.{eagain, eownerdead}
use gnuweeb_bot.Common.Word.{u32_add, u32_sub, llabs_diff}
use gnuweeb_bot.Workqueue.{Workqueue, Work, Signal}
use gnuweeb_bot.Workqueue.Spawn.{arm_worker}

abbrev pub count_pending_works : {A : Type 0} → Workqueue A → ℕ
count_pending_works wq = llabs_diff wq.tail wq.head

-- `wq->work_list[wq->tail++ & wq->mask] = *work`
abbrev pub store_work : {A : Type 0} → Workqueue A → Work A → Workqueue A
store_work wq work = record wq {
  work_list = set wq.work_list (bit_and wq.tail wq.mask) work;
  tail = u32_add wq.tail 1;
}

-- `ret <= 0 && ret != -EAGAIN`
abbrev pub is_settled : ℤ → Bool
is_settled ret = is_nonpositive ret && not (eqb_ℤ ret eagain)

-- The caller holds the lock throughout. `create` gives the results of `thread_create`.
module _ {A : Type 0} (create : ℕ → ℤ) where
  unfoldable pub try_queue_work_locked : Workqueue A → Work A → ℤ × Workqueue A × List Signal
  unfolding arm_worker
  try_queue_work_locked wq work =
      if wq.should_stop
      then (eownerdead, wq, [])
      else if wq.queue_is_blocked
      then (eagain, wq, [])
      else if leb wq.attr.max_pending_works (count_pending_works wq)
      then (eagain, wq, [])
      else let (ret, wq', signals) = arm_worker create (store_work wq work) in (pos 0, wq', signals)

  -- One lap of the loop in `queue_work`, up to its return or to the wait, where the lock is given
  -- up. `none` says that the caller sleeps on `queue_work_cond`.
  unfoldable pub queue_work_lap : Workqueue A → Work A → Option ℤ × Workqueue A × List Signal
  unfolding try_queue_work_locked
  queue_work_lap wq work =
      let (ret, wq', signals) = try_queue_work_locked wq work in
      if is_settled ret
      then (some ret, wq', signals)
      else (none, record wq' { nr_sleeping_queuers = u32_add wq'.nr_sleeping_queuers 1 }, signals)

  -- After `cond_wait`, with the lock taken again.
  unfoldable pub queue_work_wake : Workqueue A → Work A → Option ℤ × Workqueue A × List Signal
  unfolding queue_work_lap
  queue_work_wake wq work =
      queue_work_lap (record wq { nr_sleeping_queuers = u32_sub wq.nr_sleeping_queuers 1 }) work

  -- The rest of the loop after a lap. Each entry of the list is what the other threads do to the
  -- queue during one wait; where the list ends, the caller still sleeps.
  queue_work_waits :
      List (Workqueue A → Workqueue A)
      → Work A
      → Option ℤ × Workqueue A × List Signal
      → Option ℤ × Workqueue A × List Signal
  queue_work_waits [] work lap = lap
  queue_work_waits (others ∷ waits) work (some ret, wq, signals) = (some ret, wq, signals)
  queue_work_waits (others ∷ waits) work (none, wq, signals) =
      let (ret, wq', more) = queue_work_wake (others wq) work in
      queue_work_waits waits work (ret, wq', signals ++ more)

  unfoldable pub queue_work :
      List (Workqueue A → Workqueue A) → Workqueue A → Work A → Option ℤ × Workqueue A × List Signal
  unfolding queue_work_lap queue_work_wake queue_work_waits
  queue_work waits wq work = queue_work_waits waits work (queue_work_lap wq work)
