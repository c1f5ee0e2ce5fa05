-- ===== src/Workqueue/Hired.antt =====
-- Where thread_create succeeds, a slot that is claimed has a thread, and a work that is accepted has
-- a worker (arm_spawn_worker and queue_work of core/workqueue.c).
use gnuweeb_bot.Common.{
  ℕ, zero, suc, ◌+◌, ◌<◌, ◌≡◌, ◌≢◌, refl, sym, ap, true, false, none, List, [], ◌∷◌, ◌==◌, ◌||◌,
  leb, arith, length, modify, ◌⊎◌, Bool-cases, Option-cases, inl, inr,
}
use mathlib.Core.Path.{subst}
use gnuweeb_bot.Common.Int.{ℤ, pos, is_zero}
use gnuweeb_bot.Workqueue.{Workqueue, WorkerThread, Work}
use gnuweeb_bot.Workqueue.Spawn.{
  get_free_worker_slot_from, get_free_worker_slot, start_slot, arm_spawn_worker, arm_worker,
}
use gnuweeb_bot.Workqueue.Submit.{
  count_pending_works, store_work, try_queue_work_locked, queue_work_lap,
}
use gnuweeb_bot.Workqueue.Grown.{wq_at, thread_at, get_free_worker_slot_from_lem}

-- A slot that is claimed anew has a thread.
abbrev pub Hired : (before after : List WorkerThread) → Type 0
Hired before after =
    (i : ℕ) → wq_at before i ≡ false → wq_at after i ≡ true → thread_at after i ≡ true

-- Slots numbered from `i` on, each claimed exactly where it has a thread.
abbrev pub Healthy : ℕ → List WorkerThread → Type 0
Healthy i [] = Unit
Healthy i (worker ∷ workers) =
    (worker.id ≡ i) × (worker.wq ≡ worker.thread) × Healthy (i + 1) workers

pub start_slot-Healthy :
    (ret : ℤ) (workers : List WorkerThread) (k j : ℕ)
    → ret ≡ pos 0
    → Healthy k workers
    → Healthy k (modify workers j (start_slot ret))
start_slot-Healthy ret [] k j ok h = tt
start_slot-Healthy ret (worker ∷ workers) k zero ok (id, same, h) = (id, sym (ap is_zero ok), h)
start_slot-Healthy ret (worker ∷ workers) k (suc j) ok (id, same, h) =
    (id, same, start_slot-Healthy ret workers (k + 1) j ok h)

-- Some slot is claimed.
abbrev pub HasHands : List WorkerThread → Type 0
HasHands workers = (i : ℕ) × (i < length workers) × (wq_at workers i ≡ true)

Hired-refl : (workers : List WorkerThread) → Hired workers workers
Hired-refl workers i free claimed = cc

pub start_slot-Hired :
    (ret : ℤ) (workers : List WorkerThread) (i : ℕ)
    → ret ≡ pos 0
    → Hired workers (modify workers i (start_slot ret))
start_slot-Hired ret [] i ok j free claimed = absurd (cc)
start_slot-Hired ret (worker ∷ workers) zero ok zero free claimed = ap is_zero ok
start_slot-Hired ret (worker ∷ workers) zero ok (suc j) free claimed = absurd (cc)
start_slot-Hired ret (worker ∷ workers) (suc i) ok zero free claimed = absurd (cc)
start_slot-Hired ret (worker ∷ workers) (suc i) ok (suc j) free claimed =
    start_slot-Hired ret workers i ok j free claimed

start_slot-HasHands :
    (ret : ℤ) (workers : List WorkerThread) (i : ℕ)
    → i < length workers
    → HasHands (modify workers i (start_slot ret))
start_slot-HasHands ret [] i h = absurd (omega arith)
start_slot-HasHands ret (worker ∷ workers) zero h = (0, omega arith, refl)
start_slot-HasHands ret (worker ∷ workers) (suc i) h =
    let (j, inside, claimed) = start_slot-HasHands ret workers i (omega arith) in
    (suc j, omega arith, claimed)

-- Without a free slot every slot is claimed.
full-HasHands :
    (workers : List WorkerThread)
    → 0 < length workers
    → get_free_worker_slot workers ≡ none
    → HasHands workers
unfolding get_free_worker_slot get_free_worker_slot_from
full-HasHands [] h e = absurd (omega arith)
full-HasHands (worker ∷ workers) h e = elim (Bool-cases worker.wq) [
  | inl taken ↦ (0, omega arith, taken)
  | inr free ↦ absurd (ground arith)
]

module _ {A : Type 0} (create : ℕ → ℤ) (ok : (i : ℕ) → create i ≡ pos 0) where
  arm_worker-Hired : (wq : Workqueue A) → Hired wq.workers (arm_worker create wq).1.workers
  unfolding arm_worker
  arm_worker-Hired wq = elim (Bool-cases (wq.nr_sleeping_workers == 0)) [
    | inl none_asleep ↦ elim (Option-cases (get_free_worker_slot wq.workers)) [
      | inl full ↦ rw (none_asleep, full, arm_spawn_worker) (Hired-refl wq.workers)
      | inr (i, free) ↦
          rw (none_asleep, free, arm_spawn_worker) (start_slot-Hired (create i) wq.workers i (ok i))
    ]
    | inr some_asleep ↦ rw some_asleep (Hired-refl wq.workers)
  ]

  arm_worker-Healthy :
      (wq : Workqueue A) → Healthy 0 wq.workers → Healthy 0 (arm_worker create wq).1.workers
  unfolding arm_worker
  arm_worker-Healthy wq h = elim (Bool-cases (wq.nr_sleeping_workers == 0)) [
    | inl none_asleep ↦ elim (Option-cases (get_free_worker_slot wq.workers)) [
      | inl full ↦ rw (none_asleep, full, arm_spawn_worker) h
      | inr (i, free) ↦
          rw (none_asleep, free, arm_spawn_worker)
            (start_slot-Healthy (create i) wq.workers 0 i (ok i) h)
    ]
    | inr some_asleep ↦ rw some_asleep h
  ]

  arm_worker-HasHands :
      (wq : Workqueue A)
      → 0 < length wq.workers
      → (wq.nr_sleeping_workers ≢ 0 → HasHands wq.workers)
      → HasHands (arm_worker create wq).1.workers
  unfolding arm_worker get_free_worker_slot
  arm_worker-HasHands wq some_slot asleep = elim (Bool-cases (wq.nr_sleeping_workers == 0)) [
    | inl none_asleep ↦ elim (Option-cases (get_free_worker_slot wq.workers)) [
      | inl full ↦
          rw (none_asleep, full, arm_spawn_worker) (full-HasHands wq.workers some_slot full)
      | inr (i, free) ↦
          let (j, at, inside, _) = get_free_worker_slot_from_lem 0 wq.workers free in
          rw (none_asleep, free, arm_spawn_worker)
            (start_slot-HasHands (create i) wq.workers i (omega arith))
    ]
    | inr some_asleep ↦ rw some_asleep (asleep (λ e. ground arith))
  ]

  -- A lap of queue_work arms a worker, or leaves the slots and the list alone.
  queue_work_lap-arms :
      (wq : Workqueue A) (work : Work A)
      → let out = (queue_work_lap create wq work).1 in
        ((out.workers ≡ wq.workers) × (out.head ≡ wq.head) × (out.tail ≡ wq.tail))
        ⊎ (out ≡ (arm_worker create (store_work wq work)).1)
  unfolding queue_work_lap try_queue_work_locked
  queue_work_lap-arms wq work = elim (Bool-cases wq.should_stop) [
    | inl stop ↦ inl (ground arith)
    | inr going ↦
        elim (Bool-cases
          (wq.queue_is_blocked || leb wq.attr.max_pending_works (count_pending_works wq))) [
            | inl full ↦ inl (ground arith)
            | inr free ↦ inr (ground arith)
          ]
  ]

  -- After a lap of queue_work each slot claimed by it has a thread.
  pub queue_work_lap-Hired :
      (wq : Workqueue A) (work : Work A)
      → Hired wq.workers (queue_work_lap create wq work).1.workers
  queue_work_lap-Hired wq work = elim (queue_work_lap-arms wq work) [
    | inl (same, _, _) ↦ rw same (Hired-refl wq.workers)
    | inr armed ↦ rw armed (arm_worker-Hired (store_work wq work))
  ]

  -- A lap of queue_work claims a slot with a thread.
  pub queue_work_lap-Healthy :
      (wq : Workqueue A) (work : Work A)
      → Healthy 0 wq.workers
      → Healthy 0 (queue_work_lap create wq work).1.workers
  queue_work_lap-Healthy wq work h = elim (queue_work_lap-arms wq work) [
    | inl (same, _, _) ↦ rw same h
    | inr armed ↦ rw armed (arm_worker-Healthy (store_work wq work) h)
  ]

  -- After a lap of queue_work that leaves a work pending some slot is claimed.
  pub queue_work_lap-HasHands :
      (wq : Workqueue A) (work : Work A)
      → 0 < length wq.workers
      → (wq.nr_sleeping_workers ≢ 0 → HasHands wq.workers)
      → ((wq.head == wq.tail) ≡ false → HasHands wq.workers)
      → ((queue_work_lap create wq work).1.head == (queue_work_lap create wq work).1.tail) ≡ false
      → HasHands (queue_work_lap create wq work).1.workers
  queue_work_lap-HasHands wq work some_slot asleep pending more =
      elim (queue_work_lap-arms wq work) [
        | inl (same, head, tail) ↦ rw same (pending (rw (head, tail) at more))
        | inr armed ↦
            subst (λ (w : Workqueue A). HasHands w.workers) (sym armed)
              (arm_worker-HasHands (store_work wq work) some_slot asleep)
      ]
