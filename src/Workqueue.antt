-- ===== src/Workqueue.antt =====
-- core/workqueue.c and include/gw/workqueue.h: a pool of worker threads over a circular queue of
-- works. This file holds the data; the children hold the functions and what is proved of them.
pub mod Attr
pub mod Spawn
pub mod Submit
pub mod WaitAll
pub mod Worker
pub mod Destroy
pub mod Store
pub mod Moves
pub mod Grown
pub mod Hired
pub mod Alloc
pub mod System
mod Tests
use Prim.Native.String.{String}
use gnuweeb_bot.Common.{ℕ, Bool, Option, List}

-- `WQ_F_LAZY_THREAD_CREATION` and `WQ_F_ALL`
abbrev pub wq_f_lazy_thread_creation : ℕ
wq_f_lazy_thread_creation = 1

abbrev pub wq_f_all : ℕ
wq_f_all = wq_f_lazy_thread_creation

-- `struct workqueue_attr`
pub record WorkqueueAttr : Type 0 where
  pub name : String
  pub flags : ℕ
  pub max_threads : ℕ
  pub min_threads : ℕ
  pub max_pending_works : ℕ

-- A function pointer that is not NULL: the code only calls it.
abbrev pub Callback : Type 0
Callback = ℕ

-- `struct work_struct`; `none` is a NULL function. The queue never looks into the argument.
pub record Work (A : Type 0) : Type 0 where
  pub func : Option Callback
  pub arg : A
  pub deleter : Option Callback

-- `struct worker_thread`, a slot of `wq->workers`. `wq` says whether the pointer of that name is
-- set, `thread` whether `thread_create` has stored a thread in the slot.
pub record WorkerThread : Type 0 where
  pub id : ℕ
  pub thread : Bool
  pub wq : Bool

-- `struct workqueue_struct`, without the mutex and the condition variables.
pub record Workqueue (A : Type 0) : Type 0 where
  pub should_stop : Bool
  pub queue_is_blocked : Bool
  pub wait_all_is_waiting : Bool
  pub nr_sleeping_workers : ℕ
  pub nr_sleeping_queuers : ℕ
  pub nr_online_workers : ℕ
  pub nr_running_workers : ℕ
  pub attr : WorkqueueAttr
  pub workers : List WorkerThread
  pub mask : ℕ
  pub head : ℕ
  pub tail : ℕ
  pub work_list : List (Work A)

-- The condition variables, and what a critical section does to them.
pub data Cond : Type 0 where
  worker_cond wait_all_cond queue_work_cond : Cond

pub data Signal : Type 0 where
  signal : Cond → Signal
  broadcast : Cond → Signal

-- A call of `work.func` or `work.deleter`.
pub data Call (A : Type 0) : Type 0 where
  run : Callback → A → Call A
  delete : Callback → A → Call A
