-- ===== src/Workqueue/Alloc/Start.antt =====
-- Where every call succeeds, alloc_workqueue (core/workqueue.c) leaves a queue that starts well.
use native.Mathlib.Nat.{pow-le-pow_right}
use mathlib.Core.Path.{subst}
use gnuweeb_bot.Common.{
  ℕ, zero, suc, ◌+◌, ◌≤◌, ◌<◌, ◌^◌, ◌≡◌, refl, ap, sym, ◌∙◌, true, false, none, some, List, [], ◌∷◌,
  arith, length, modify, if◌then◌else◌, replicate,
}
use gnuweeb_bot.Common.Int.{ℤ, pos, is_zero}
use gnuweeb_bot.Common.Word.{u32_mod, u32_sub}
use gnuweeb_bot.Common.Circular.{Circular, fresh-Circular}
use gnuweeb_bot.Common.Family.{total-none}
use gnuweeb_bot.RoundUp.Limits.{RoundsUp}
use gnuweeb_bot.Workqueue.{
  Workqueue, WorkqueueAttr, WorkerThread, Work, Cond, worker_cond, wait_all_cond, queue_work_cond,
  wq_f_all,
}
use gnuweeb_bot.Workqueue.Spawn.{start_slot}
use gnuweeb_bot.Workqueue.Hired.{Healthy, start_slot-Healthy}
use gnuweeb_bot.Workqueue.Grown.{wq_at, thread_at, start_slot-Grown}
use gnuweeb_bot.Workqueue.Worker.{unborn, starting}
use gnuweeb_bot.Workqueue.Attr.{wanted_threads, validate_accepts}
use gnuweeb_bot.Workqueue.System.{System, QueuerState}
use gnuweeb_bot.Workqueue.System.Count.{Counted}
use gnuweeb_bot.Workqueue.System.Manned.{Manned}
use gnuweeb_bot.Workqueue.System.Inv.{Inv, StoredIn}
use gnuweeb_bot.Workqueue.Alloc.{
  Env, Event, fresh_slots, create_workers, nr_thread_to_create, alloc_workqueue, fresh_workqueue,
  Outcome, init_workqueue,
}

-- The slots with threads are those that are claimed.
abbrev Marked : List WorkerThread → Type 0
Marked workers = (i : ℕ) → thread_at workers i ≡ wq_at workers i

Healthy-Marked : (k : ℕ) (workers : List WorkerThread) → Healthy k workers → Marked workers
Healthy-Marked k [] h i = refl
Healthy-Marked k (worker ∷ workers) (id, same, h) zero = sym same
Healthy-Marked k (worker ∷ workers) (id, same, h) (suc i) = Healthy-Marked (k + 1) workers h i

fresh_slots-Healthy : (n k : ℕ) → Healthy k (fresh_slots n k)
unfolding fresh_slots
fresh_slots-Healthy zero k = tt
fresh_slots-Healthy (suc n) k = (refl, refl, fresh_slots-Healthy n (k + 1))

length-fresh_slots : (n k : ℕ) → length (fresh_slots n k) ≡ n
unfolding fresh_slots
length-fresh_slots zero k = refl
length-fresh_slots (suc n) k = ap suc (length-fresh_slots n (k + 1))

-- With every creation a success the loop ends with a zero status, and marks each slot.
create_workers_lem :
    (create : ℕ → ℤ) (n i : ℕ) (workers : List WorkerThread)
    → ((j : ℕ) → create j ≡ pos 0)
    → Healthy 0 workers
    → (started : List WorkerThread) × (create_workers create n i workers ≡ (pos 0, i + n, started))
      × (length started ≡ length workers)
      × Healthy 0 started
unfolding create_workers
create_workers_lem create zero i workers ok m = (workers, ground arith, refl, m)
create_workers_lem create (suc n) i workers ok m =
    let next = modify workers i (start_slot (create i)) in
    let (started, e, same, m') =
      create_workers_lem create n (i + 1) next ok
        (start_slot-Healthy (create i) workers 0 i (ok i) m) in
    (
      started,
      rw (ap is_zero (ok i)) (e ∙ ap (λ (k : ℕ). (pos 0, k, started)) (omega arith)),
      same ∙ (start_slot-Grown (create i) workers i).same_length,
      m',
    )

module _ {A : Type 0} where
  -- The threads just created have not run yet, and nobody has called the queue.
  abbrev pub start : Workqueue A → System A
  start wq = record {
    wq = wq;
    worker = λ i. if thread_at wq.workers i then starting else unborn;
    queuer = λ i. QueuerState.idle;
    accepted = [];
    taken = [];
    cleared = [];
  }

  module _ (env : Env) (zero_arg : A) where
    -- Every call that alloc_workqueue makes succeeds.
    pub record AllSucceed : Type 0 where
      pub memory : (env.calloc_wq ≡ true) × (env.calloc_workers ≡ true)
      pub lock : env.mutex_init ≡ pos 0
      pub conds : (c : Cond) → env.cond_init c ≡ pos 0
      pub threads : (i : ℕ) → env.create i ≡ pos 0

    fresh-Counted :
        (n q : ℕ) (attr : WorkqueueAttr) (workers : List WorkerThread)
        → n + 1 < u32_mod
        → q + 1 < u32_mod
        → length workers ≡ n
        → Marked workers
        → let s = start (record (fresh_workqueue env zero_arg attr) { workers = workers }) in
          Counted n q s.wq s.worker s.queuer
    unfolding fresh_workqueue
    fresh-Counted n q attr workers few_w few_q sized marked = record {
      few = (few_w, few_q);
      slots = sized;
      sleeping = sym (total-none _ n _ (λ i. ground arith));
      online = sym (total-none _ n _ (λ i. ground arith));
      runs = sym (total-none _ n _ (λ i. ground arith));
      queuers = sym (total-none _ q _ (λ i. refl));
      free_slots = λ i free. rw (marked i ∙ free);
    }

    fresh-Manned :
        (n : ℕ) (attr : WorkqueueAttr) (workers : List WorkerThread)
        → Healthy 0 workers
        → Manned n (start (record (fresh_workqueue env zero_arg attr) { workers = workers }))
    unfolding fresh_workqueue
    fresh-Manned n attr workers healthy = record {
      going = λ goes i f. ground arith;
      claimed = λ i taken f. ground (arith, Healthy-Marked 0 workers healthy i);
      hands = λ more. absurd (cc);
      healthy = healthy;
    }

    fresh-Stored :
        (attr : WorkqueueAttr) (n : ℕ) (workers : List WorkerThread)
        → RoundsUp n attr.max_pending_works
        → StoredIn (record (fresh_workqueue env zero_arg attr) { workers = workers }) [] [] []
    unfolding fresh_workqueue
    fresh-Stored attr n workers r = record {
      bits = r.bits;
      dropped = [];
      pending = [];
      ring =
          subst (λ m. Circular r.bits (replicate m zero_work) (u32_sub max 1) 0 0 []) size
            (fresh-Circular r.bits (u32_sub max 1) zero_work r.small (size ∙ r.power));
      capacity = sym size;
      order = refl;
      calls = refl;
      going = λ _. refl;
      stopped = λ e. cc;
    }
      where
        max : ℕ
        max = attr.max_pending_works

        zero_work : Work A
        zero_work = record { func = none; arg = zero_arg; deleter = none }

        size : u32_sub max 1 + 1 ≡ max
        size = omega (
          arith,
          r.two_le,
          r.power,
          pow-le-pow_right {n = 2} (omega arith) {i = r.bits} {j = 31} r.small,
        )

    -- The queue and the status of a ladder whose last step makes the queue.
    abbrev Makes : Outcome A → Workqueue A → Type 0
    Makes out wq = out ≡ (pos 0, some wq, out.2)

    init_succeeds :
        AllSucceed
        → (attr : WorkqueueAttr) (workers : List WorkerThread) (i : ℕ)
        → create_workers env.create (nr_thread_to_create attr) 0 (fresh_slots attr.max_threads 0)
          ≡ (pos 0, i, workers)
        → Makes
            (init_workqueue env zero_arg attr)
            (record (fresh_workqueue env zero_arg attr) { workers = workers })
    unfolding init_workqueue
    init_succeeds ok attr workers i made = rw (
      ok.memory.0,
      ap is_zero ok.lock,
      ap is_zero (ok.conds worker_cond),
      ap is_zero (ok.conds wait_all_cond),
      ap is_zero (ok.conds queue_work_cond),
      ok.memory.1,
      made,
    )

    -- For attributes that the validation accepts, numbers of threads and of callers that the counters
    -- can hold, and calls that all succeed, alloc_workqueue returns zero with a queue
    -- that satisfies the invariant, whose claimed slots have threads, and which nobody blocks.
    pub alloc_workqueue-Inv :
        (attr : WorkqueueAttr) (q : ℕ)
        → AllSucceed
        → attr.flags ≤ wq_f_all
        → attr.min_threads ≤ wanted_threads attr
        → attr.max_pending_works ≤ 2 ^ 31
        → wanted_threads attr + 1 < u32_mod
        → q + 1 < u32_mod
        → (wq : Workqueue A) × (events : List Event) × (alloc_workqueue env zero_arg attr
            ≡ some (pos 0, some wq, events))
          × Inv (wanted_threads attr) q (start wq)
          × Manned (wanted_threads attr) (start wq)
          × (wq.queue_is_blocked ≡ false)
    unfolding alloc_workqueue fresh_workqueue
    alloc_workqueue-Inv attr q ok known enough small few_w few_q =
        let (adjusted, valid, a) = validate_accepts attr known enough small in
        let n = nr_thread_to_create adjusted in
        let (workers, made, sized, healthy) =
          create_workers_lem env.create n 0 (fresh_slots adjusted.max_threads 0) ok.threads
            (fresh_slots-Healthy adjusted.max_threads 0) in
        (
          record (fresh_workqueue env zero_arg adjusted) { workers = workers },
          (init_workqueue env zero_arg adjusted).2,
          rw (valid, alloc_workqueue) (ap some (init_succeeds ok adjusted workers (0 + n) made)),
          record {
            counted =
                fresh-Counted (wanted_threads attr) q adjusted workers few_w few_q
                  (sized ∙ length-fresh_slots adjusted.max_threads 0 ∙ a.threads)
                  (Healthy-Marked 0 workers healthy);
            stored = fresh-Stored adjusted attr.max_pending_works workers a.pending;
          },
          fresh-Manned (wanted_threads attr) adjusted workers healthy,
          refl,
        )
