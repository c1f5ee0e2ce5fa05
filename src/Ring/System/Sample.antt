-- ===== src/Ring/System/Sample.antt =====
-- A ring of core/ring.c with one worker at work: a NOP and an update to handle.
use gnuweeb_bot.Common.{ℕ, ◌+◌, ◌≤◌, ◌≡◌, refl, true, false, none, some, [], ◌∷◌, arith, length}
use gnuweeb_bot.Common.Int.{ℤ, pos}
use gnuweeb_bot.Common.Family.{total, assign}
use gnuweeb_bot.Common.Circular.{fresh-Circular}
use gnuweeb_bot.Workqueue.{Workqueue, WorkqueueAttr, Work}
use gnuweeb_bot.Workqueue.Submit.{queue_work_lap}
use gnuweeb_bot.Workqueue.Worker.{unborn, starting, running, worker_step}
use gnuweeb_bot.Workqueue.System.{System, idle, after_work}
use gnuweeb_bot.Workqueue.System.Inv.{Inv}
use gnuweeb_bot.Ring.{GwRingSqe, nop, tg_module_handle, GwRingCqe}
use gnuweeb_bot.Ring.Prep.{gw_ring_get_sqe, fill_sqe}
use gnuweeb_bot.Ring.Complete.{post_cqe, gw_ring_load_head_cqe}
use gnuweeb_bot.Ring.Pool.{sqe_work}
use gnuweeb_bot.Ring.Submit.{Handlers}
use gnuweeb_bot.Ring.Nops.{nop_cqe}
use gnuweeb_bot.Ring.System
use gnuweeb_bot.Ring.System.{
  resting, issuing, Machine, Visit, posting, punted, exec_result, RingReach, starts_call,
}
use gnuweeb_bot.Ring.System.Inv.{Core}
use gnuweeb_bot.Ring.System.Kinds.{Kinds}
use gnuweeb_bot.Ring.System.Paced.{Within, PacedRun, here, next, PacedRun-RingReach}
use gnuweeb_bot.Ring.System.Staffed.{Staffed, StaffedRing}
use gnuweeb_bot.Ring.System.Runs.{RingReach-Core}
use gnuweeb_bot.Ring.System.Quiet.{AdvancingRun, advance, done}

-- The module answers every update with the number of updates so far.
abbrev pub handlers : Handlers ℕ ℕ
handlers = record {
  tgapi_call_get_updates = λ ctx updates_p offset world. (pos 0, world);
  gw_module_handle = λ ctx update world. (pos world, world + 1);
}

abbrev zero_work : Work (GwRingSqe ℕ)
zero_work = record { func = none; arg = nop 0; deleter = none }

abbrev attr : WorkqueueAttr
attr = record { name = "test"; flags = 0; max_threads = 1; min_threads = 1; max_pending_works = 2 }

abbrev wq : Workqueue (GwRingSqe ℕ)
wq = record {
  should_stop = false;
  queue_is_blocked = false;
  wait_all_is_waiting = false;
  nr_sleeping_workers = 0;
  nr_sleeping_queuers = 0;
  nr_online_workers = 0;
  nr_running_workers = 0;
  attr = attr;
  workers = record { id = 0; thread = true; wq = true } ∷ [];
  mask = 1;
  head = 0;
  tail = 0;
  work_list = zero_work ∷ zero_work ∷ [];
}

abbrev system : System (GwRingSqe ℕ)
system = record {
  wq = wq;
  worker = assign (λ _. unborn) 0 starting;
  queuer = λ _. idle;
  accepted = [];
  taken = [];
  cleared = [];
}

system-Inv : Inv 1 1 system
unfolding total
system-Inv = record {
  counted = record {
    few = omega arith;
    slots = refl;
    sleeping = refl;
    online = refl;
    runs = refl;
    queuers = refl;
    free_slots = λ i free. ground arith;
  };
  stored = record {
    bits = 1;
    dropped = [];
    pending = [];
    ring = fresh-Circular 1 1 zero_work (omega arith) refl;
    capacity = refl;
    order = refl;
    calls = refl;
    going = λ _. refl;
    stopped = λ e. cc;
  };
}

abbrev zero_cqe : GwRingCqe
zero_cqe = record { op = 0; res = pos 0; flags = 0; user_data = 0 }

abbrev begun : Machine ℕ ℕ
begun = record {
  ring = record {
    should_stop = false;
    wait_cqe_cond_flag = false;
    sq_head = 0;
    sq_tail = 0;
    sq_mask = 1;
    cq_head = 0;
    cq_tail = 0;
    cq_mask = 3;
    cqes = zero_cqe ∷ zero_cqe ∷ zero_cqe ∷ zero_cqe ∷ [];
    sqes = nop 0 ∷ nop 0 ∷ [];
    wq = system;
  };
  submitter = resting;
  visit = none;
  call = λ _. none;
  world = 0;
  prepared = [];
  refused = [];
  lost = [];
  posted = [];
  seen = [];
}

pub begun-Core : Core 1 2 1 begun
unfolding total
begun-Core = record {
  queue = [];
  sq = record { submissions = fresh-Circular 1 1 (nop 0) (omega arith) refl; span = refl };
  cq = record {
    cqs = [];
    completions = fresh-Circular 2 3 zero_cqe (omega arith) refl;
    order = refl;
    counted = refl;
    reads = tt;
  };
  wq = system-Inv;
  caller = refl;
  books = λ key. refl;
}

pub begun-Kinds : Kinds 1 begun
unfolding total
begun-Kinds = record { accepted = refl; asleep = refl; calls = refl }

abbrev pub update : GwRingSqe ℕ
update = tg_module_handle 71 (record { ctx = 5; update = 6 })

-- Filled, in gw_ring_submit, the NOP issued, the update punted, and out again.
abbrev filled_one : Machine ℕ ℕ
filled_one = record begun {
  ring = fill_sqe 0 (nop 70) (gw_ring_get_sqe begun.ring).1;
  prepared = nop 70 ∷ [];
}

abbrev filled_two : Machine ℕ ℕ
filled_two = record filled_one {
  ring = fill_sqe 1 update (gw_ring_get_sqe filled_one.ring).1;
  prepared = nop 70 ∷ update ∷ [];
}

abbrev pub in_submit : Machine ℕ ℕ
in_submit = record filled_two { submitter = issuing 0 2 0 }

abbrev pub nop_issued : Machine ℕ ℕ
nop_issued = record (posting in_submit (nop 70) (some (pos 0))) { submitter = issuing 1 2 1 }

abbrev create : ℕ → ℤ
create _ = pos 0

abbrev pub update_punted : Machine ℕ ℕ
update_punted =
    punted nop_issued 2 2 1 update (queue_work_lap create nop_issued.ring.wq.wq (sqe_work update))

abbrev all_submitted : Machine ℕ ℕ
all_submitted = record update_punted {
  ring = record update_punted.ring { sq_head = 2 };
  submitter = resting;
}

-- The worker takes the update and handles it.
abbrev taken : Workqueue (GwRingSqe ℕ)
taken = record wq {
  nr_online_workers = 1;
  nr_running_workers = 1;
  head = 1;
  tail = 1;
  work_list = sqe_work update ∷ zero_work ∷ [];
}

abbrev pub runs : Machine ℕ ℕ
runs = record all_submitted {
  ring = record all_submitted.ring {
    wq = after_work all_submitted.ring.wq 0 (running (sqe_work update)) taken;
  };
  call = assign all_submitted.call 0 (some update);
}

abbrev pub handled : Machine ℕ ℕ
handled = record (posting runs update (some (pos 0))) { call = assign runs.call 0 none; world = 1 }

small-Within : (m : Machine ℕ ℕ) → length m.prepared ≤ 2 → m.ring.cq_mask ≡ 3 → Within m
small-Within m few mask = record {
  outstanding = omega (arith, few, mask);
  unwrapped = omega (arith, few);
}

submitted-PacedRun : PacedRun handlers 1 begun all_submitted
unfolding gw_ring_get_sqe post_cqe queue_work_lap
submitted-PacedRun =
    next
      (next
        (next
          (next
            (next
              (next here (small-Within begun (omega arith) refl)
                (System.prepare 0 (nop 70) refl refl))
              (small-Within filled_one (omega arith) refl) (System.prepare 1 update refl refl))
            (small-Within filled_two (omega arith) refl) (System.submit refl refl))
          (small-Within in_submit (omega arith) refl) (System.issue_nop 0 2 0 70 refl refl refl))
        (small-Within nop_issued (omega arith) refl)
        (System.punt create 1 2 1 update refl refl refl refl))
      (small-Within update_punted (omega arith) refl) (System.submitted 2 2 2 refl refl)

pub runs-PacedRun : PacedRun handlers 1 begun runs
unfolding gw_ring_get_sqe post_cqe queue_work_lap worker_step
runs-PacedRun =
    next submitted-PacedRun (small-Within all_submitted (omega arith) refl)
      (System.work 0 (running (sqe_work update)) taken [] (omega arith) refl refl)

pub handled-PacedRun : PacedRun handlers 1 begun handled
unfolding gw_ring_get_sqe post_cqe queue_work_lap
handled-PacedRun =
    next runs-PacedRun (small-Within runs (omega arith) refl)
      (System.exec 0 update (omega arith) refl)

-- While the reader has read the first of two completions.
abbrev pub visited : Machine ℕ ℕ
visited = record handled { visit = some (record { head = 1; read = nop_cqe 70 ∷ [] }) }

pub visited-RingReach : RingReach handlers 1 begun visited
unfolding gw_ring_get_sqe post_cqe queue_work_lap gw_ring_load_head_cqe
visited-RingReach =
    System.next (System.next (PacedRun-RingReach handled-PacedRun) (System.visit_begin refl))
      (System.visit_next (record { head = 0; read = [] }) 0 (nop_cqe 70) refl refl refl)

pub begun-Staffed : Staffed 1 begun.ring.wq
begun-Staffed = record {
  manned = record {
    going = λ goes i f. ground arith;
    claimed = λ i taken f. ground arith;
    hands = λ more. absurd (cc);
    healthy = (refl, refl, tt);
  };
  unblocked = refl;
}

pub punted-StaffedRing : StaffedRing handlers 1 begun update_punted
unfolding gw_ring_get_sqe post_cqe
punted-StaffedRing =
    StaffedRing.next
      (StaffedRing.next
        (StaffedRing.next
          (StaffedRing.next
            (StaffedRing.next StaffedRing.here (System.prepare 0 (nop 70) refl refl) tt)
            (System.prepare 1 update refl refl) tt)
          (System.submit refl refl) tt)
        (System.issue_nop 0 2 0 70 refl refl refl) tt)
      (System.punt create 1 2 1 update refl refl refl refl) (λ j. refl)

pub issued-Core : Core 1 2 1 nop_issued
unfolding gw_ring_get_sqe post_cqe
issued-Core = RingReach-Core {handlers = handlers} begun-Core (
    System.next
      (System.next
        (System.next (System.next System.here (System.prepare 0 (nop 70) refl refl))
          (System.prepare 1 update refl refl))
        (System.submit refl refl))
      (System.issue_nop 0 2 0 70 refl refl refl))

-- One step, which takes the second submission to the work queue.
pub punting : AdvancingRun handlers 1 nop_issued 1 update_punted
unfolding gw_ring_get_sqe post_cqe
punting = advance (System.punt create 1 2 1 update refl refl refl refl) tt (λ j. refl) done
