-- ===== src/Ring/System/Boot.antt =====
-- The system that starts from a ring of gw_ring_init (core/ring.c), and what its steps share with
-- the functions of the ring.
use gnuweeb_bot.Common.{ℕ, suc, ◌+◌, ◌*◌, ◌^◌, ◌≤◌, ◌≡◌, refl, Option, none, some, List, [], arith}
use gnuweeb_bot.Common.Int.{pos}
use gnuweeb_bot.Common.Family.{total-none}
use gnuweeb_bot.Workqueue.Alloc.Start.{start}
use gnuweeb_bot.Ring.{GwRingSqe, nop, tg_api_call, tg_module_handle, other}
use gnuweeb_bot.Ring.Submit.{Handlers, gw_ring_wq_sqe_exec}
use gnuweeb_bot.Ring.Init.{RingEnv, PartEvent, IoRing, gw_ring_init}
use gnuweeb_bot.Ring.Start.{AllBuilt, Opened, gw_ring_init-Opened}
use gnuweeb_bot.Ring.System.{resting, Machine, posting, exec_result}
use gnuweeb_bot.Ring.System.Books.{in_call}
use gnuweeb_bot.Ring.System.Inv.{Core}
use gnuweeb_bot.Ring.System.Staffed.{Staffed}
use gnuweeb_bot.Ring.System.Kinds.{unknown_op, Kinds}

abbrev no_calls : {P : Type 0} → ℕ → Option (GwRingSqe P)
no_calls i = none

module _ {P E : Type 0} where
  -- Nothing has been submitted, and the workers have not run yet.
  abbrev pub booted : IoRing P → E → Machine P E
  booted ring world = record {
    ring = record {
      should_stop = ring.should_stop;
      wait_cqe_cond_flag = ring.wait_cqe_cond_flag;
      sq_head = ring.sq_head;
      sq_tail = ring.sq_tail;
      sq_mask = ring.sq_mask;
      cq_head = ring.cq_head;
      cq_tail = ring.cq_tail;
      cq_mask = ring.cq_mask;
      cqes = ring.cqes;
      sqes = ring.sqes;
      wq = start ring.wq;
    };
    submitter = resting;
    visit = none;
    call = no_calls;
    world = world;
    prepared = [];
    refused = [];
    lost = [];
    posted = [];
    seen = [];
  }

  booted-Core :
      {size : ℕ} (ring : IoRing P) (world : E)
      → (opened : Opened 1 size ring)
      → Core opened.bits (suc opened.bits) 1024 (booted ring world) × Kinds 1024 (booted ring world)
  booted-Core ring world opened = (
    record {
      queue = [];
      sq = record { submissions = opened.submitted; span = refl };
      cq = record {
        cqs = [];
        completions = opened.completed;
        order = refl;
        counted = opened.unread;
        reads = tt;
      };
      wq = opened.queue;
      caller = refl;
      books = λ key. omega (arith, total-none (in_call key) 1024 no_calls (λ i. refl));
    },
    record {
      accepted = refl;
      asleep = refl;
      calls = total-none (in_call unknown_op) 1024 no_calls (λ i. refl);
    },
  )

  -- For a size of at most `2 ^ 30`, where every call succeeds, gw_ring_init returns zero with a ring
  -- that is a good start of the system with one caller and 1024 slots for workers: it satisfies the
  -- invariant, no unknown operation is in its work queue, the claimed slots of the work queue have
  -- threads and nobody blocks it, its submissions are at least as many as asked for, and its
  -- completions twice as many.
  pub gw_ring_init-Core :
      (env : RingEnv) (size : ℕ) (world : E)
      → AllBuilt P env
      → size ≤ 2 ^ 30
      → (ring : IoRing P) × (events : List PartEvent) × (bits : ℕ) × (gw_ring_init env size
          ≡ some (pos 0, some ring, events))
        × Core bits (suc bits) 1024 (booted ring world)
        × Kinds 1024 (booted ring world)
        × Staffed 1024 (start ring.wq)
        × (size ≤ ring.sq_mask + 1)
        × (ring.cq_mask + 1 ≡ 2 * (ring.sq_mask + 1))
  gw_ring_init-Core env size world ok small =
      let (ring, events, made, opened) = gw_ring_init-Opened env size 1 ok small (omega arith) in
      let staffed : Staffed 1024 (start ring.wq) = record {
        manned = opened.manned;
        unblocked = opened.unblocked;
      } in
      let (core, kinds) = booted-Core ring world opened in
      (ring, events, opened.bits, made, core, kinds, staffed, opened.covers, opened.twice)

module _ {P E : Type 0} (handlers : Handlers P E) where
  -- A worker that runs gw_ring_wq_sqe_exec leaves the ring and the world that its step leaves.
  exec-posting :
      (m : Machine P E) (sqe : GwRingSqe P)
      → gw_ring_wq_sqe_exec handlers m.ring sqe m.world ≡ (
        (posting m sqe (exec_result handlers sqe m.world).0).ring,
        (exec_result handlers sqe m.world).1,
      )
  unfolding gw_ring_wq_sqe_exec
  exec-posting m (nop d) = refl
  exec-posting m (tg_api_call d call) = refl
  exec-posting m (tg_module_handle d handle) = refl
  exec-posting m (other k d) = refl
