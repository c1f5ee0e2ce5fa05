-- ===== src/Workqueue/Grown.antt =====
-- What claiming a slot for a new thread changes (arm_spawn_worker of core/workqueue.c).
use gnuweeb_bot.Common.{
  ℕ, zero, suc, ◌+◌, ◌<◌, ◌≡◌, refl, ap, inl, inr, Bool, true, false, Option, none, some, List, [],
  ◌∷◌, arith, ◌==◌, length, modify, get_elem?, ◌||◌, leb, Bool-cases, Option-cases,
}
use gnuweeb_bot.Common.Int.{ℤ, pos}
use gnuweeb_bot.Common.Errno.{eownerdead}
use gnuweeb_bot.Common.Word.{u32_add}
use gnuweeb_bot.Workqueue.{Workqueue, WorkerThread, Work, Signal}
use gnuweeb_bot.Workqueue.Spawn.{
  get_free_worker_slot_from, get_free_worker_slot, start_slot, arm_spawn_worker, arm_worker,
}
use gnuweeb_bot.Workqueue.Submit.{
  count_pending_works, store_work, try_queue_work_locked, queue_work_lap,
}

abbrev pub wq_at : List WorkerThread → ℕ → Bool
wq_at workers i = elim (get_elem? workers i) [ none ↦ false | some worker ↦ worker.wq ]

abbrev pub thread_at : List WorkerThread → ℕ → Bool
thread_at workers i = elim (get_elem? workers i) [ none ↦ false | some worker ↦ worker.thread ]

-- No slot is given back, and none is added.
pub record Grown (before after : List WorkerThread) : Type 0 where
  pub same_length : length after ≡ length before
  pub kept : (i : ℕ) → wq_at after i ≡ false → wq_at before i ≡ false

Grown-refl : (workers : List WorkerThread) → Grown workers workers
Grown-refl workers = record { same_length = refl; kept = λ i h. h }

length-modify :
    (workers : List WorkerThread) (i : ℕ) (f : WorkerThread → WorkerThread)
    → length (modify workers i f) ≡ length workers
length-modify [] i f = refl
length-modify (worker ∷ workers) zero f = refl
length-modify (worker ∷ workers) (suc i) f = ap suc (length-modify workers i f)

start_slot-keeps :
    (ret : ℤ) (workers : List WorkerThread) (i j : ℕ)
    → wq_at (modify workers i (start_slot ret)) j ≡ false
    → wq_at workers j ≡ false
start_slot-keeps ret [] i j h = h
start_slot-keeps ret (worker ∷ workers) zero zero h = cc
start_slot-keeps ret (worker ∷ workers) zero (suc j) h = h
start_slot-keeps ret (worker ∷ workers) (suc i) zero h = h
start_slot-keeps ret (worker ∷ workers) (suc i) (suc j) h = start_slot-keeps ret workers i j h

pub start_slot-Grown :
    (ret : ℤ) (workers : List WorkerThread) (i : ℕ)
    → Grown workers (modify workers i (start_slot ret))
start_slot-Grown ret workers i = record {
  same_length = length-modify workers i (start_slot ret);
  kept = start_slot-keeps ret workers i;
}

-- The slot that the search finds is in the list, and free.
pub get_free_worker_slot_from_lem :
    (k : ℕ) (workers : List WorkerThread) {i : ℕ}
    → get_free_worker_slot_from k workers ≡ some i
    → (j : ℕ) × (i ≡ k + j) × (j < length workers) × (wq_at workers j ≡ false)
unfolding get_free_worker_slot_from
get_free_worker_slot_from_lem k [] h = absurd (cc)
get_free_worker_slot_from_lem k (worker ∷ workers) h = elim (Bool-cases worker.wq) [
  | inl taken ↦
      let (j, at, inside, free) = get_free_worker_slot_from_lem (k + 1) workers (rw taken at h) in
      (suc j, omega arith, omega arith, free)
  | inr free ↦ (zero, ground arith, omega arith, free)
]

module _ {A : Type 0} where
  -- The three ways in which a lap of `queue_work` ends.
  pub data Lap (wq : Workqueue A) (work : Work A) (out : Option ℤ × Workqueue A × List Signal)
      : Type 0 where
    stops : wq.should_stop ≡ true → out ≡ (some eownerdead, wq, []) → Lap wq work out
    sleeps :
        wq.should_stop ≡ false
        → (wq.queue_is_blocked || leb wq.attr.max_pending_works (count_pending_works wq)) ≡ true
        → out ≡ (none, record wq { nr_sleeping_queuers = u32_add wq.nr_sleeping_queuers 1 }, [])
        → Lap wq work out
    accepts :
        (workers : List WorkerThread) (signals : List Signal)
        → wq.should_stop ≡ false
        → (wq.queue_is_blocked || leb wq.attr.max_pending_works (count_pending_works wq)) ≡ false
        → Grown wq.workers workers
        → out ≡ (some (pos 0), record (store_work wq work) { workers = workers }, signals)
        → Lap wq work out

module _ {A : Type 0} (create : ℕ → ℤ) where
  -- Arming a worker changes the slots alone.
  arm_worker_lem :
      (wq : Workqueue A)
      → ((arm_worker create wq).1 ≡ record wq { workers = (arm_worker create wq).1.workers })
        × Grown wq.workers (arm_worker create wq).1.workers
  unfolding arm_worker
  arm_worker_lem wq = (
    ground arith,
    elim (Bool-cases (wq.nr_sleeping_workers == 0)) [
      | inl none_asleep ↦ elim (Option-cases (get_free_worker_slot wq.workers)) [
        | inl full ↦ rw (none_asleep, full, arm_spawn_worker) (Grown-refl wq.workers)
        | inr (i, free) ↦
            rw (none_asleep, free, arm_spawn_worker) (start_slot-Grown (create i) wq.workers i)
      ]
      | inr some_asleep ↦ rw some_asleep (Grown-refl wq.workers)
    ],
  )

  pub queue_work_lap-Lap :
      (wq : Workqueue A) (work : Work A) → Lap wq work (queue_work_lap create wq work)
  unfolding queue_work_lap try_queue_work_locked
  queue_work_lap-Lap wq work = elim (Bool-cases wq.should_stop) [
    | inl stop ↦ stops stop (ground arith)
    | inr going ↦
        elim (Bool-cases
          (wq.queue_is_blocked || leb wq.attr.max_pending_works (count_pending_works wq))) [
            | inl full ↦ sleeps going full (ground arith)
            | inr free ↦
                let armed = arm_worker create (store_work wq work) in
                accepts armed.1.workers armed.2 going free (arm_worker_lem (store_work wq work)).1
                  (ground (arith, (arm_worker_lem (store_work wq work)).0))
          ]
  ]
