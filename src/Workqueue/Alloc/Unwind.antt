-- ===== src/Workqueue/Alloc/Unwind.antt =====
-- The error paths of alloc_workqueue (core/workqueue.c) give everything back.
use gnuweeb_bot.Common.{
  ℕ, zero, suc, ◌+◌, ◌≤◌, ◌<◌, ◌≡◌, refl, ap, inl, inr, true, false, none, some, List, [], ◌∷◌,
  ◌++◌, map, arith, append-nil, append_assoc, Bool-cases, ◌^◌,
}
use gnuweeb_bot.Common.Int.{ℤ, is_zero}
use mathlib.Core.List.{reverse, reverse-append, reverse-cons, map-append}
use native.Mathlib.Nat.{zero-add}
use gnuweeb_bot.Workqueue.{
  Workqueue, WorkqueueAttr, WorkerThread, Cond, worker_cond, wait_all_cond, queue_work_cond,
}
use gnuweeb_bot.Workqueue.Attr.{validate_total}
use gnuweeb_bot.Common.Word.{u32_mod}
use gnuweeb_bot.Workqueue.Alloc.{
  Resource, memory, lock, slots, cond, thread, Event, acquired, released, Env, threads_from,
  join_back, Outcome, fresh_workqueue, init_workqueue, alloc_workqueue, prepend, unwind,
  workers_made, workers_step, cond_step, lock_step, after_lock, after_worker_cond,
  after_wait_all_cond, after_check, create_workers, fresh_slots, nr_thread_to_create, err_free_wq,
  err_free_work_list_lock, err_free_work_list_cond, err_free_wait_all_cond,
  err_free_queue_work_cond,
}

-- How a part of the ladder ends, whose caller's label is `label`: either there is a queue and all
-- that was acquired is held, or there is none, and all is released, the last first, and then `label`.
abbrev pub Settles : {A : Type 0} → List Event → Outcome A → Type 0
Settles label (ret, some wq, events) =
    (held : List Resource) × (is_zero ret ≡ true) × (events ≡ map acquired held)
Settles label (ret, none, events) =
    (held : List Resource) × (is_zero ret ≡ false)
    × (events ≡ map acquired held ++ (map released (reverse held) ++ label))

threads_from-snoc : (i n : ℕ) → threads_from i (suc n) ≡ threads_from i n ++ thread (i + n) ∷ []
threads_from-snoc i zero = let same : i ≡ i + 0 = omega arith in ap (λ (t : ℕ). thread t ∷ []) same
threads_from-snoc i (suc n) =
    let moved : i + 1 + n ≡ i + suc n = omega arith in
    ap (λ (l : List Resource). thread i ∷ l) (rw (← moved) (threads_from-snoc (i + 1) n))

join_back_lem : (n : ℕ) → join_back n ≡ map released (reverse (threads_from 0 n))
unfolding join_back
join_back_lem zero = refl
join_back_lem (suc n) =
    rw (threads_from-snoc 0 n, reverse-append, zero-add)
      (ap (λ (l : List Event). released (thread n) ∷ l) (join_back_lem n))

fail-Settles :
    (A : Type 0) (label : List Event) (ret : ℤ)
    → is_zero ret ≡ false
    → Settles {A = A} label (ret, none, label)
fail-Settles A label ret e = ([], e, refl)

module _ {A : Type 0} where
  -- A step that acquires one thing more, which the label below it releases.
  prepend-Settles :
      (label : List Event) (r : Resource) (out : Outcome A)
      → Settles (released r ∷ label) out
      → Settles label (prepend (acquired r ∷ []) out)
  prepend-Settles label r (ret, some wq, events) (held, e, h) =
      (r ∷ held, e, ap (λ (l : List Event). acquired r ∷ l) h)
  prepend-Settles label r (ret, none, events) (held, e, h) =
      (r ∷ held, e, rw (h, reverse-cons) (simp (map-append, append_assoc)))

  module _ (env : Env) (zero_arg : A) where
    workers_made-Settles :
        (wq : Workqueue A) (loop : ℤ × ℕ × List WorkerThread)
        → Settles err_free_queue_work_cond (unwind (workers_made env zero_arg wq loop))
    unfolding workers_made
    workers_made-Settles wq (ret, i, workers) = elim (Bool-cases (is_zero ret)) [
      | inl made ↦ rw made (slots ∷ threads_from 0 i, refl, simp append-nil)
      | inr failed ↦
          rw (failed, failed, join_back_lem i)
            (slots ∷ threads_from 0 i, refl, simp (reverse-cons, map-append, append_assoc))
    ]

    workers_step-Settles :
        (wq : Workqueue A) → Settles err_free_queue_work_cond (workers_step env zero_arg wq)
    unfolding workers_step
    workers_step-Settles wq = elim (Bool-cases env.calloc_workers) [
      | inl ok ↦ rw ok (
          workers_made-Settles wq (
            create_workers env.create (nr_thread_to_create wq.attr) 0
              (fresh_slots wq.attr.max_threads 0)))
      | inr full ↦ rw full ([], refl, refl)
    ]

    cond_step-Settles :
        (c : Cond) (label : List Event) (rest : Workqueue A → Outcome A) (wq : Workqueue A)
        → Settles (released (cond c) ∷ label) (rest wq)
        → Settles label (cond_step env zero_arg c label rest wq)
    unfolding cond_step
    cond_step-Settles c label rest wq h = elim (Bool-cases (is_zero (env.cond_init c))) [
      | inl ok ↦ rw ok (prepend-Settles label (cond c) (rest wq) h)
      | inr failed ↦ rw failed (fail-Settles A label (env.cond_init c) failed)
    ]

    lock_step-Settles :
        (rest : Workqueue A → Outcome A) (wq : Workqueue A)
        → Settles err_free_work_list_lock (rest wq)
        → Settles err_free_wq (lock_step env zero_arg rest wq)
    unfolding lock_step
    lock_step-Settles rest wq h = elim (Bool-cases (is_zero env.mutex_init)) [
      | inl ok ↦ rw ok (prepend-Settles err_free_wq lock (rest wq) h)
      | inr failed ↦ rw failed (fail-Settles A err_free_wq env.mutex_init failed)
    ]

    after_lock-Settles :
        (wq : Workqueue A) → Settles err_free_work_list_lock (after_lock env zero_arg wq)
    unfolding after_lock
    after_lock-Settles wq =
        cond_step-Settles worker_cond err_free_work_list_lock (after_worker_cond env zero_arg) wq (
          cond_step-Settles wait_all_cond err_free_work_list_cond (after_wait_all_cond env zero_arg)
            wq
            (cond_step-Settles queue_work_cond err_free_wait_all_cond (workers_step env zero_arg) wq
              (workers_step-Settles wq)))

    init_workqueue-Settles : (attr : WorkqueueAttr) → Settles [] (init_workqueue env zero_arg attr)
    unfolding init_workqueue
    init_workqueue-Settles attr = elim (Bool-cases env.calloc_wq) [
      | inl ok ↦ rw ok (
          prepend-Settles [] memory
            (lock_step env zero_arg (after_lock env zero_arg) (fresh_workqueue env zero_arg attr))
            (lock_step-Settles (after_lock env zero_arg) (fresh_workqueue env zero_arg attr)
              (after_lock-Settles (fresh_workqueue env zero_arg attr))))
      | inr full ↦ rw full ([], refl, refl)
    ]

    after_check-Settles :
        (checked : ℤ × WorkqueueAttr) → Settles [] (after_check env zero_arg checked)
    unfolding after_check
    after_check-Settles (ret, attr) = elim (Bool-cases (is_zero ret)) [
      | inl ok ↦ rw ok (init_workqueue-Settles attr)
      | inr failed ↦ rw failed (fail-Settles A [] ret failed)
    ]

    -- For flags that fit a `uint32_t` and at most `2 ^ 31` pending works alloc_workqueue returns. A
    -- zero status comes with a queue, and everything acquired is held; any other status comes without a queue, and everything
    -- acquired has been released, the last first.
    pub alloc_workqueue-Settles :
        (attr : WorkqueueAttr)
        → attr.flags < u32_mod
        → attr.max_pending_works ≤ 2 ^ 31
        → (out : Outcome A) × (alloc_workqueue env zero_arg attr ≡ some out) × Settles [] out
    unfolding alloc_workqueue
    alloc_workqueue-Settles attr word small =
        let (checked, valid) = validate_total attr word small in
        (after_check env zero_arg checked, rw (valid, alloc_workqueue), after_check-Settles checked)
