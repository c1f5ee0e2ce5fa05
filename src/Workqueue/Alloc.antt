-- ===== src/Workqueue/Alloc.antt =====
-- alloc_workers and alloc_workqueue (core/workqueue.c)
pub mod Unwind
mod Tests
pub mod Start
use gnuweeb_bot.Common.{
  ℕ, zero, suc, ◌+◌, Bool, true, false, Option, none, some, List, [], ◌∷◌, ◌++◌, ◌-◌, ◌==◌,
  if◌then◌else◌, modify, replicate, bit_and, map,
}
use gnuweeb_bot.Common.Int.{ℤ, pos, is_zero}
use gnuweeb_bot.Common.Errno.{enomem}
use gnuweeb_bot.Common.Word.{u32_sub}
use gnuweeb_bot.Workqueue.{
  Workqueue, WorkqueueAttr, WorkerThread, Work, Cond, worker_cond, wait_all_cond, queue_work_cond,
  wq_f_lazy_thread_creation,
}
use gnuweeb_bot.Workqueue.Attr.{validate_and_adjust_workqueue_attr}
use gnuweeb_bot.Workqueue.Spawn.{start_slot}

-- The zeroed slots, numbered.
unfoldable pub fresh_slots : ℕ → ℕ → List WorkerThread
fresh_slots zero i = []
fresh_slots (suc n) i = record { id = i; thread = false; wq = false } ∷ fresh_slots n (i + 1)

abbrev pub nr_thread_to_create : WorkqueueAttr → ℕ
nr_thread_to_create attr =
    if bit_and attr.flags wq_f_lazy_thread_creation == 0 then attr.max_threads else attr.min_threads

-- What the two functions acquire, and must give back when they fail.
pub data Resource : Type 0 where
  memory lock slots : Resource
  cond : Cond → Resource
  thread : ℕ → Resource

pub data Event : Type 0 where
  acquired released : Resource → Event

-- The results of the calls that may fail: `calloc` of the queue and of the slots, `mutex_init`,
-- `cond_init` of each condition variable, and `thread_create` for each slot.
pub record Env : Type 0 where
  pub calloc_wq : Bool
  pub calloc_workers : Bool
  pub mutex_init : ℤ
  pub cond_init : Cond → ℤ
  pub create : ℕ → ℤ

-- The threads created by the first `i` rounds, and `while (i--) thread_join(...)`.
abbrev pub threads_from : ℕ → ℕ → List Resource
threads_from i zero = []
threads_from i (suc n) = thread i ∷ threads_from (i + 1) n

unfoldable pub join_back : ℕ → List Event
join_back zero = []
join_back (suc i) = released (thread i) ∷ join_back i

module _ (create : ℕ → ℤ) where
  -- The loop that creates threads, with the rounds left: its status, where it stopped, the slots.
  unfoldable pub create_workers : ℕ → ℕ → List WorkerThread → ℤ × ℕ × List WorkerThread
  create_workers zero i workers = (pos 0, i, workers)
  create_workers (suc n) i workers =
      let workers' = modify workers i (start_slot (create i)) in
      let rest = create_workers n (i + 1) workers' in
      if is_zero (create i) then rest else (create i, i, workers')

-- A status, the queue if it is zero, and what was acquired and released, in order.
abbrev pub Outcome : Type 0 → Type 0
Outcome A = ℤ × Option (Workqueue A) × List Event

abbrev pub prepend : {A : Type 0} → List Event → Outcome A → Outcome A
prepend events (ret, wq, rest) = (ret, wq, events ++ rest)

-- The labels of alloc_workqueue.
abbrev pub err_free_wq : List Event
err_free_wq = released memory ∷ []

abbrev pub err_free_work_list_lock : List Event
err_free_work_list_lock = released lock ∷ err_free_wq

abbrev pub err_free_work_list_cond : List Event
err_free_work_list_cond = released (cond worker_cond) ∷ err_free_work_list_lock

abbrev pub err_free_wait_all_cond : List Event
err_free_wait_all_cond = released (cond wait_all_cond) ∷ err_free_work_list_cond

abbrev pub err_free_queue_work_cond : List Event
err_free_queue_work_cond = released (cond queue_work_cond) ∷ err_free_wait_all_cond

-- `if (ret) goto err_free_queue_work_cond`
abbrev pub unwind : {A : Type 0} → Outcome A → Outcome A
unwind (ret, wq, events) =
    (ret, wq, events ++ (if is_zero ret then [] else err_free_queue_work_cond))

-- `zero_arg` is the argument in zeroed memory.
module _ {A : Type 0} (env : Env) (zero_arg : A) where
  -- After the loop, by its status, where it stopped, and the slots. On failure the threads created
  -- so far are joined and the slots freed. (The flag and the signal that stop them live in the
  -- queue, which the caller frees.)
  unfoldable pub workers_made : Workqueue A → ℤ × ℕ × List WorkerThread → Outcome A
  unfolding join_back
  workers_made wq (ret, i, workers) =
      if is_zero ret
      then (
        pos 0,
        some (record wq { workers = workers }),
        acquired slots ∷ map acquired (threads_from 0 i),
      )
      else (
        ret,
        none,
        acquired slots ∷ map acquired (threads_from 0 i) ++ (join_back i ++ released slots ∷ []),
      )

  unfoldable pub alloc_workers : Workqueue A → Outcome A
  unfolding fresh_slots create_workers workers_made
  alloc_workers wq =
      if env.calloc_workers
      then workers_made wq (
          create_workers env.create (nr_thread_to_create wq.attr) 0
            (fresh_slots wq.attr.max_threads 0))
      else (enomem, none, [])

  -- The ladder of alloc_workqueue, from its last step up.
  workers_step : Workqueue A → Outcome A
  unfolding alloc_workers
  workers_step wq = unwind (alloc_workers wq)

  cond_step : Cond → List Event → (Workqueue A → Outcome A) → Workqueue A → Outcome A
  cond_step c label rest wq =
      if is_zero (env.cond_init c)
      then prepend (acquired (cond c) ∷ []) (rest wq)
      else (env.cond_init c, none, label)

  lock_step : (Workqueue A → Outcome A) → Workqueue A → Outcome A
  lock_step rest wq =
      if is_zero env.mutex_init
      then prepend (acquired lock ∷ []) (rest wq)
      else (env.mutex_init, none, err_free_wq)

  after_wait_all_cond : Workqueue A → Outcome A
  unfolding workers_step cond_step
  after_wait_all_cond = cond_step queue_work_cond err_free_wait_all_cond workers_step

  after_worker_cond : Workqueue A → Outcome A
  unfolding after_wait_all_cond cond_step
  after_worker_cond = cond_step wait_all_cond err_free_work_list_cond after_wait_all_cond

  after_lock : Workqueue A → Outcome A
  unfolding after_worker_cond cond_step
  after_lock = cond_step worker_cond err_free_work_list_lock after_worker_cond

  -- The zeroed queue with its attributes.
  unfoldable pub fresh_workqueue : WorkqueueAttr → Workqueue A
  fresh_workqueue attr = record {
    should_stop = false;
    queue_is_blocked = false;
    wait_all_is_waiting = false;
    nr_sleeping_workers = 0;
    nr_sleeping_queuers = 0;
    nr_online_workers = 0;
    nr_running_workers = 0;
    attr = attr;
    workers = [];
    mask = u32_sub attr.max_pending_works 1;
    head = 0;
    tail = 0;
    work_list =
        replicate attr.max_pending_works (record { func = none; arg = zero_arg; deleter = none });
  }

  unfoldable pub init_workqueue : WorkqueueAttr → Outcome A
  unfolding after_lock lock_step fresh_workqueue
  init_workqueue attr =
      if env.calloc_wq
      then prepend (acquired memory ∷ []) (lock_step after_lock (fresh_workqueue attr))
      else (enomem, none, [])

  unfoldable pub after_check : ℤ × WorkqueueAttr → Outcome A
  unfolding init_workqueue
  after_check (ret, attr) = if is_zero ret then init_workqueue attr else (ret, none, [])

  -- `none` only where the validation does not end.
  unfoldable pub alloc_workqueue : WorkqueueAttr → Option (Outcome A)
  unfolding validate_and_adjust_workqueue_attr after_check
  alloc_workqueue attr_arg = elim (validate_and_adjust_workqueue_attr attr_arg) [
    | none ↦ none
    | some checked ↦ some (after_check checked)
  ]
