-- ===== src/Ring/Tests.antt =====
-- A small ring of core/ring.c at work: two submissions, four completions.
use gnuweeb_bot.Common.{
  ℕ, suc, ◌+◌, ◌*◌, ◌≤◌, ◌≡◌, ◌⊎◌, refl, true, false, not, ◌||◌, Option, none, some, List, [], ◌∷◌,
  arith, leb, if◌then◌else◌,
}
use gnuweeb_bot.Common.Int.{ℤ, pos}
use gnuweeb_bot.Common.Errno.{enomem, eownerdead}
use gnuweeb_bot.Common.Word.{u32_mod}
use gnuweeb_bot.Common.Circular.{Circular, fresh-Circular, push-Circular}
use gnuweeb_bot.Workqueue.{Workqueue, WorkqueueAttr}
use gnuweeb_bot.Workqueue.System.Inv.{StoredIn}
use gnuweeb_bot.Ring.{GwRing, GwRingSqe, nop, tg_module_handle, TgModuleHandle, GwRingCqe}
use gnuweeb_bot.Ring.Prep.{gw_ring_get_sqe, fill_sqe}
use gnuweeb_bot.Ring.Complete.{post_cqe, wait_cqe_lap}
use gnuweeb_bot.Ring.Submit.{IoWq, gw_ring_submit}
use gnuweeb_bot.Ring.Init.{RingEnv, PartEvent, IoRing, Built, gw_ring_init}
use gnuweeb_bot.Ring.Slots.{
  Submitted, Completed, gw_ring_get_sqe-fill, post_cqe-Completed, wait_cqe_lap_lem,
}
use gnuweeb_bot.Ring.Issue.{gw_ring_submit-issue_all, issue_all, as_status, caught_up}
use gnuweeb_bot.Ring.Nops.{nop_cqe, gw_ring_submit-nops}
use gnuweeb_bot.Ring.Start.{AllBuilt, Settled, gw_ring_init-Settled}
use gnuweeb_bot.Ring.System.Inv.{Core}
use gnuweeb_bot.Ring.System.Kinds.{Kinds}
use gnuweeb_bot.Ring.System.Staffed.{Staffed}
use gnuweeb_bot.Workqueue.Alloc.Start.{start}
use gnuweeb_bot.Ring.System.Boot.{booted, gw_ring_init-Core}
use gnuweeb_bot.Ring.Pool.{Pool, pool_io_wq}

abbrev wq_attr : WorkqueueAttr
wq_attr = record {
  name = "test";
  flags = 0;
  max_threads = 1;
  min_threads = 1;
  max_pending_works = 2;
}

abbrev sqe_io : IoWq (Pool (GwRingSqe ℕ)) (GwRingSqe ℕ)
sqe_io = pool_io_wq

abbrev small_wq : Workqueue (GwRingSqe ℕ)
small_wq = record {
  should_stop = false;
  queue_is_blocked = false;
  wait_all_is_waiting = false;
  nr_sleeping_workers = 0;
  nr_sleeping_queuers = 0;
  nr_online_workers = 0;
  nr_running_workers = 0;
  attr = wq_attr;
  workers = record { id = 0; thread = true; wq = true } ∷ [];
  mask = 1;
  head = 0;
  tail = 0;
  work_list =
      record { func = none; arg = nop 0; deleter = none }
      ∷ record { func = none; arg = nop 0; deleter = none }
      ∷ [];
}

abbrev small_wq-StoredIn : StoredIn small_wq [] [] []
small_wq-StoredIn = record {
  bits = 1;
  dropped = [];
  pending = [];
  ring =
      fresh-Circular 1 1 (record { func = none; arg = nop 0; deleter = none }) (omega arith) refl;
  capacity = refl;
  order = refl;
  calls = refl;
  going = λ _. refl;
  stopped = λ _. refl;
}

-- One turn: there is memory and the queue takes the work at once.
abbrev pool : Pool (GwRingSqe ℕ)
pool = record {
  wq = small_wq;
  turns = record { found = true; create = λ _. pos 0; waits = [] } ∷ [];
}

abbrev zero_cqe : GwRingCqe
zero_cqe = record { op = 0; res = pos 0; flags = 0; user_data = 0 }

abbrev empty : {W : Type 0} → W → GwRing ℕ W
empty wq = record {
  should_stop = false;
  wait_cqe_cond_flag = false;
  sq_head = 0;
  sq_tail = 0;
  sq_mask = 1;
  cq_head = 0;
  cq_tail = 0;
  cq_mask = 3;
  cqes = zero_cqe ∷ zero_cqe ∷ zero_cqe ∷ zero_cqe ∷ [];
  sqes = nop 0 ∷ nop 0 ∷ [];
  wq = wq;
}

abbrev handle : TgModuleHandle ℕ
handle = record { ctx = 5; update = 6 }

-- A NOP and an update to handle, submitted.
abbrev filled : GwRing ℕ (Pool (GwRingSqe ℕ))
filled = record (empty pool) { sq_tail = 2; sqes = nop 70 ∷ tg_module_handle 71 handle ∷ [] }

abbrev two_nops : GwRing ℕ (Pool (GwRingSqe ℕ))
two_nops = record (empty pool) { sq_tail = 2; sqes = nop 70 ∷ nop 71 ∷ [] }

-- One completion has been posted.
abbrev posted : GwRing ℕ (Pool (GwRingSqe ℕ))
posted = record (empty pool) {
  cq_tail = 1;
  cqes = nop_cqe 70 ∷ zero_cqe ∷ zero_cqe ∷ zero_cqe ∷ [];
}

abbrev sq_fresh : Circular {A = GwRingSqe ℕ} 1 (nop 0 ∷ nop 0 ∷ []) 1 0 0 []
sq_fresh = fresh-Circular {A = GwRingSqe ℕ} 1 1 (nop 0) (omega arith) refl

abbrev filled-Submitted : Submitted 1 filled (nop 70 ∷ tg_module_handle 71 handle ∷ [])
filled-Submitted =
    push-Circular (tg_module_handle 71 handle) (push-Circular (nop 70) sq_fresh (omega arith))
      (omega arith)

abbrev two_nops-Submitted : Submitted 1 two_nops (nop 70 ∷ nop 71 ∷ [])
two_nops-Submitted =
    push-Circular (nop 71) (push-Circular (nop 70) sq_fresh (omega arith)) (omega arith)

abbrev empty-Completed : {W : Type 0} (wq : W) → Completed 2 (empty wq) []
empty-Completed wq = fresh-Circular 2 3 zero_cqe (omega arith) refl

abbrev posted-Completed : Completed 2 posted (nop_cqe 70 ∷ [])
posted-Completed = push-Circular (nop_cqe 70) (empty-Completed pool) (omega arith)

gw_ring_get_sqe-fill_example :
    (idx : ℕ) × ((gw_ring_get_sqe (empty pool)).0 ≡ some idx)
    × Submitted 1 (fill_sqe idx (nop 70) (gw_ring_get_sqe (empty pool)).1) (nop 70 ∷ [])
gw_ring_get_sqe-fill_example =
    gw_ring_get_sqe-fill (empty pool) 1 [] (nop 70) sq_fresh (omega arith) (omega arith)

post_cqe-Completed_example :
    ((post_cqe posted (nop 71) (pos 0)).0 ≡ not (leb 4 1 || leb u32_mod 1))
    × Completed 2
        (post_cqe posted (nop 71) (pos 0)).2
        (nop_cqe 70 ∷ (if (post_cqe posted (nop 71) (pos 0)).0 then nop_cqe 71 ∷ [] else []))
post_cqe-Completed_example =
    post_cqe-Completed posted 2 (nop_cqe 70 ∷ []) (nop 71) (pos 0) posted-Completed

wait_cqe_lap_lem_example :
    (wait_cqe_lap posted).0
    ≡ (if false then some eownerdead else if false || leb u32_mod 1 then none else some (pos 1))
wait_cqe_lap_lem_example =
    wait_cqe_lap_lem posted 2 (nop_cqe 70 ∷ []) posted-Completed (omega arith)

posted_lap : (wait_cqe_lap posted).0 ≡ some (pos 1)
unfolding wait_cqe_lap
posted_lap = refl

gw_ring_submit-issue_all_example : gw_ring_submit sqe_io 3 filled ≡ (
    if false
    then some (eownerdead, [], filled)
    else as_status sqe_io (
        caught_up sqe_io 2
          (issue_all sqe_io (nop 70 ∷ tg_module_handle 71 handle ∷ []) filled 0 [])))
gw_ring_submit-issue_all_example =
    gw_ring_submit-issue_all sqe_io 3 filled 1 (nop 70 ∷ tg_module_handle 71 handle ∷ [])
      filled-Submitted (omega arith)

gw_ring_submit-nops_example :
    (ring' : GwRing ℕ (Pool (GwRingSqe ℕ))) × (gw_ring_submit sqe_io 3 two_nops
      ≡ some (pos 2, [], ring'))
    × Submitted 1 ring' []
    × Completed 2 ring' (nop_cqe 70 ∷ nop_cqe 71 ∷ [])
gw_ring_submit-nops_example =
    gw_ring_submit-nops sqe_io 3 two_nops 1 2 (70 ∷ 71 ∷ []) [] two_nops-Submitted
      (empty-Completed pool) refl (omega arith) (omega arith) (omega arith)

abbrev after_two : GwRing ℕ (Pool (GwRingSqe ℕ))
after_two = record two_nops {
  sq_head = 2;
  cq_tail = 2;
  cqes = nop_cqe 70 ∷ nop_cqe 71 ∷ zero_cqe ∷ zero_cqe ∷ [];
}

two_nops_run : gw_ring_submit sqe_io 3 two_nops ≡ some (pos 2, [], after_two)
unfolding gw_ring_submit
two_nops_run = refl

abbrev env : RingEnv
env = record {
  calloc_sqes = true;
  calloc_cqes = true;
  init_sq_lock = pos 0;
  init_cq_lock = pos 0;
  init_wait_cqe_cond = pos 0;
  alloc = record {
    calloc_wq = true;
    calloc_workers = true;
    mutex_init = pos 0;
    cond_init = λ _. pos 0;
    create = λ _. pos 0;
  };
}

env-AllBuilt : AllBuilt ℕ env
env-AllBuilt = record {
  arrays = (refl, refl);
  locks = (refl, refl);
  cond = refl;
  queue = record { memory = (refl, refl); lock = refl; conds = λ _. refl; threads = λ _. refl };
}

-- The condition variable cannot be made.
gw_ring_init-Settled_example :
    (out : Built ℕ) × (gw_ring_init (record env { init_wait_cqe_cond = enomem }) 8 ≡ some out)
    × Settled [] out
gw_ring_init-Settled_example =
    gw_ring_init-Settled (record env { init_wait_cqe_cond = enomem }) 8 (omega arith)

gw_ring_init-Core_example :
    (ring : IoRing ℕ) × (events : List PartEvent) × (bits : ℕ) × (gw_ring_init env 8
      ≡ some (pos 0, some ring, events))
    × Core {E = ℕ} bits (suc bits) 1024 (booted ring 0)
    × Kinds {E = ℕ} 1024 (booted ring 0)
    × Staffed 1024 (start ring.wq)
    × (8 ≤ ring.sq_mask + 1)
    × (ring.cq_mask + 1 ≡ 2 * (ring.sq_mask + 1))
gw_ring_init-Core_example = gw_ring_init-Core env 8 0 env-AllBuilt (omega arith)

-- There is no memory for the work, and the update is freed.
abbrev poor : GwRing ℕ (Pool (GwRingSqe ℕ))
poor = empty (record { wq = small_wq; turns = [] })

abbrev updates : List ℕ
updates = 6 ∷ []

nothing_returns :
    (ret : ℤ) (wq : Workqueue (GwRingSqe ℕ))
    → ◌≡◌ {A = Option (ℤ × Workqueue (GwRingSqe ℕ))} none (some (ret, wq))
    → (ret ≡ pos 0) ⊎ (ret ≡ eownerdead)
nothing_returns ret wq e = absurd (cc)

-- A work queue that refuses everything.
abbrev closed_io : IoWq (Workqueue (GwRingSqe ℕ)) (GwRingSqe ℕ)
closed_io = record {
  allocate = λ wq. (false, wq);
  queue_work = λ wq arg. none;
  final = λ w w' arg ret e. nothing_returns ret w' e;
}
