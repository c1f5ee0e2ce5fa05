-- ===== src/Ring/Init.antt =====
-- gw_ring_init and gw_ring_destroy (core/ring.c)
use gnuweeb_bot.Common.{
  ℕ, Bool, true, false, Option, none, some, List, [], ◌∷◌, if◌then◌else◌, replicate,
}
use gnuweeb_bot.Common.Int.{ℤ, pos, is_zero}
use gnuweeb_bot.Common.Errno.{enomem}
use gnuweeb_bot.Common.Word.{u32_add, u32_sub, u32_mul}
use gnuweeb_bot.RoundUp.{round_up}
use gnuweeb_bot.Workqueue.{Workqueue, WorkqueueAttr, Call, Signal, wq_f_lazy_thread_creation}
use gnuweeb_bot.Workqueue.Alloc.{Env, Outcome, alloc_workqueue}
use gnuweeb_bot.Workqueue.Destroy.{destroy_begin}
use gnuweeb_bot.Ring.{GwRing, GwRingSqe, nop}

-- What gw_ring_init acquires, and must give back when it fails.
pub data Part : Type 0 where
  sqes_memory cqes_memory sq_lock cq_lock wait_cqe_cond work_queue : Part

pub data PartEvent : Type 0 where
  acquired released : Part → PartEvent

-- The results of the calls that may fail: `calloc` of the two arrays, `mutex_init` of the two locks,
-- `cond_init`, and those in alloc_workqueue.
pub record RingEnv : Type 0 where
  pub calloc_sqes : Bool
  pub calloc_cqes : Bool
  pub init_sq_lock : ℤ
  pub init_cq_lock : ℤ
  pub init_wait_cqe_cond : ℤ
  pub alloc : Env

-- The attributes of the ring's work queue.
abbrev pub gw_ring_wq_attr : WorkqueueAttr
gw_ring_wq_attr = record {
  name = "gw-ring-wq";
  flags = wq_f_lazy_thread_creation;
  max_threads = 1024;
  min_threads = 32;
  max_pending_works = 4096;
}

-- The labels of gw_ring_init.
abbrev pub out_free_sqes : List PartEvent
out_free_sqes = released sqes_memory ∷ []

abbrev pub out_free_cqes : List PartEvent
out_free_cqes = released cqes_memory ∷ out_free_sqes

abbrev pub out_free_sq_lock : List PartEvent
out_free_sq_lock = released sq_lock ∷ out_free_cqes

abbrev pub out_free_cq_lock : List PartEvent
out_free_cq_lock = released cq_lock ∷ out_free_sq_lock

abbrev pub out_free_wait_cqe_cond : List PartEvent
out_free_wait_cqe_cond = released wait_cqe_cond ∷ out_free_cq_lock

abbrev pub calloc_status : Bool → ℤ
calloc_status found = if found then pos 0 else enomem

-- The ring with its work queue.
abbrev pub IoRing : Type 0 → Type 0
IoRing P = GwRing P (Workqueue (GwRingSqe P))

-- A status, the ring if it is zero, and what was acquired and released, in order.
abbrev pub Built : Type 0 → Type 0
Built P = ℤ × Option (IoRing P) × List PartEvent

module _ {P : Type 0} where
  -- The cleared memory holds the number 0 as `op`, which is a NOP.
  unfoldable pub fresh_ring : ℕ → Workqueue (GwRingSqe P) → IoRing P
  fresh_ring max wq = record {
    should_stop = false;
    wait_cqe_cond_flag = false;
    sq_head = 0;
    sq_tail = 0;
    sq_mask = u32_sub max 1;
    cq_head = 0;
    cq_tail = 0;
    cq_mask = u32_sub (u32_mul max 2) 1;
    cqes =
        replicate (u32_add (u32_sub (u32_mul max 2) 1) 1)
          (record { op = 0; res = pos 0; flags = 0; user_data = 0 });
    sqes = replicate (u32_add (u32_sub max 1) 1) (nop 0);
    wq = wq;
  }

  -- One call that may fail, with the label to jump to.
  abbrev pub build_step : ℤ → Part → List PartEvent → Built P → Built P
  build_step status part label (ret, ring, events) =
      if is_zero status then (ret, ring, acquired part ∷ events) else (status, none, label)

  -- After alloc_workqueue.
  unfoldable pub with_workqueue : ℕ → Outcome (GwRingSqe P) → Built P
  unfolding fresh_ring
  with_workqueue max (ret, some wq, events) =
      if is_zero ret
      then (pos 0, some (fresh_ring max wq), acquired work_queue ∷ [])
      else (ret, none, out_free_wait_cqe_cond)
  with_workqueue max (ret, none, events) = (ret, none, out_free_wait_cqe_cond)

  unfoldable pub build_parts : RingEnv → Built P → Built P
  build_parts env rest = build_step (calloc_status env.calloc_sqes) sqes_memory [] (
      build_step (calloc_status env.calloc_cqes) cqes_memory out_free_sqes (
        build_step env.init_sq_lock sq_lock out_free_cqes (
          build_step env.init_cq_lock cq_lock out_free_sq_lock
            (build_step env.init_wait_cqe_cond wait_cqe_cond out_free_cq_lock rest))))

  -- The steps after the two loops, the one that finds the size and the one in alloc_workqueue.
  unfoldable pub build_ring : RingEnv → Option ℕ → Option (Outcome (GwRingSqe P)) → Option (Built P)
  unfolding with_workqueue build_parts
  build_ring env (some max) (some made) = some (build_parts env (with_workqueue max made))
  build_ring env _ _ = none

  -- `none` only where a loop does not end.
  unfoldable pub gw_ring_init : RingEnv → ℕ → Option (Built P)
  unfolding round_up alloc_workqueue build_ring
  gw_ring_init env size =
      build_ring env (round_up size) (alloc_workqueue env.alloc (nop 0) gw_ring_wq_attr)

  -- The critical section of gw_ring_destroy; whether it broadcasts `wait_cqe_cond`.
  unfoldable pub gw_ring_stop : {W : Type 0} → GwRing P W → Bool × GwRing P W
  gw_ring_stop ring = (ring.wait_cqe_cond_flag, record ring { should_stop = true })

  -- What destroy_workqueue leaves, in the stopped ring.
  abbrev pub with_destroyed :
      Bool × IoRing P
      → Option (List (Call (GwRingSqe P)) × Workqueue (GwRingSqe P) × List Signal)
      → Option (Bool × List (Call (GwRingSqe P)) × List Signal × IoRing P)
  with_destroyed (woken, stopped) none = none
  with_destroyed (woken, stopped) (some (calls, wq, signals)) =
      some (woken, calls, signals, record stopped { wq = wq })

  -- gw_ring_destroy up to the joins of the worker threads: the calls and the signals are those of
  -- destroy_workqueue.
  unfoldable pub gw_ring_destroy :
      IoRing P → Option (Bool × List (Call (GwRingSqe P)) × List Signal × IoRing P)
  unfolding gw_ring_stop destroy_begin
  gw_ring_destroy ring =
      let stopped = gw_ring_stop ring in with_destroyed stopped (destroy_begin stopped.1.wq)
