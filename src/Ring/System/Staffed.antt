-- ===== src/Ring/System/Staffed.antt =====
-- A ring whose work queue can create its threads (core/ring.c, core/workqueue.c).
use gnuweeb_bot.Common.{ℕ, ◌<◌, ◌≡◌, ap, ◌∙◌, false, Option, some, List, arith}
use gnuweeb_bot.Common.Int.{ℤ, pos}
use gnuweeb_bot.Workqueue.{Workqueue, Work, Signal}
use gnuweeb_bot.Workqueue.Submit.{queue_work_wake}
use gnuweeb_bot.Workqueue.Grown.{Lap, stops, sleeps, accepts, queue_work_lap-Lap}
use gnuweeb_bot.Workqueue.Moves.{worker_step-Move}
use gnuweeb_bot.Workqueue.System.{System, submit, retry, work, destroy}
use gnuweeb_bot.Workqueue.System.Count.{room}
use gnuweeb_bot.Workqueue.System.Inv.{destroy_left}
use gnuweeb_bot.Workqueue.System.Manned.{Manned, Step-Manned}
use gnuweeb_bot.Ring.{GwRingSqe, nop}
use gnuweeb_bot.Ring.Prep.{gw_ring_get_sqe}
use gnuweeb_bot.Ring.Complete.{wait_cqe_lap, wait_cqe_wake, gw_ring_cq_advance}
use gnuweeb_bot.Ring.Init.{gw_ring_stop}
use gnuweeb_bot.Ring.Submit.{Handlers}
use gnuweeb_bot.Ring.Pool.{sqe_work}
use gnuweeb_bot.Ring.System
use gnuweeb_bot.Ring.System.{issuing, queueing, Machine, posting, exec_result, RingStep}
use gnuweeb_bot.Ring.System.Inv.{queuer_of, Core, posting-Posted, posted-same}
use gnuweeb_bot.Ring.System.Submits.{roused}
use gnuweeb_bot.Ring.System.Runs.{RingStep-Core}

-- Nobody blocks the work queue, and its claimed slots have threads.
pub record Staffed {A : Type 0} (n : ℕ) (s : System A) : Type 0 where
  pub manned : Manned n s
  pub unblocked : s.wq.queue_is_blocked ≡ false

module _ {A : Type 0} where
  Lap-Unblocked :
      (wq : Workqueue A) (job : Work A) (out : Option ℤ × Workqueue A × List Signal)
      → Lap wq job out
      → out.1.queue_is_blocked ≡ wq.queue_is_blocked
  Lap-Unblocked wq job out (stops _ e) = ap (λ o. o.1.queue_is_blocked) e
  Lap-Unblocked wq job out (sleeps _ _ e) = ap (λ o. o.1.queue_is_blocked) e
  Lap-Unblocked wq job out (accepts workers signals _ _ _ e) = ap (λ o. o.1.queue_is_blocked) e

same-Staffed :
    {A : Type 0} {n : ℕ} (before after : System A)
    → Staffed n before
    → after ≡ before
    → Staffed n after
same-Staffed before after s e = rw e s

module _ {P E : Type 0} where
  posting-wq :
      (m : Machine P E) (sqe : GwRingSqe P) (result : Option ℤ)
      → (posting m sqe result).ring.wq ≡ m.ring.wq
  posting-wq m sqe result =
      ap (λ (o : Machine P E). o.ring.wq)
        (posted-same m (posting m sqe result) sqe (posting-Posted m sqe result))

module _ {P E : Type 0} {handlers : Handlers P E} {n : ℕ} where
  -- The calls of thread_create in a step succeed.
  abbrev pub Creates : {m m' : Machine P E} → RingStep handlers n m m' → Type 0
  Creates (System.punt create head tail ret sqe at_lap differ found goes) =
      (j : ℕ) → create j ≡ pos 0
  Creates (System.punt_again create head tail ret sqe asleep) = (j : ℕ) → create j ≡ pos 0
  Creates _ = Unit

  RingStep-Staffed :
      {sq_bits cq_bits : ℕ} {m m' : Machine P E}
      → 0 < n
      → Core sq_bits cq_bits n m
      → Staffed n m.ring.wq
      → (step : RingStep handlers n m m') → Creates step
      → Staffed n m'.ring.wq
  unfolding gw_ring_get_sqe wait_cqe_lap wait_cqe_wake gw_ring_stop gw_ring_cq_advance
      queue_work_wake
  RingStep-Staffed {m = m} some_slot c s
        (System.punt create head tail ret sqe at_lap differ found goes) ok =
      let job = sqe_work sqe in
      record {
        manned =
            Step-Manned some_slot c.wq s.manned
              (submit create 0 job (omega arith) (c.caller ∙ ap queuer_of at_lap)) ok;
        unblocked =
            Lap-Unblocked m.ring.wq.wq job _ (queue_work_lap-Lap create m.ring.wq.wq job)
            ∙ s.unblocked;
      }
  RingStep-Staffed {m = m} some_slot c s (System.punt_again create head tail ret sqe asleep) ok =
      let job = sqe_work sqe in
      record {
        manned =
            Step-Manned some_slot c.wq s.manned
              (retry create 0 job (omega arith) (c.caller ∙ ap queuer_of asleep)) ok;
        unblocked =
            Lap-Unblocked (roused m.ring.wq.wq) job _
              (queue_work_lap-Lap create (roused m.ring.wq.wq) job)
            ∙ s.unblocked;
      }
  RingStep-Staffed {m = m} some_slot c s (System.work i state wq signals inside free e) ok =
      let move =
        worker_step-Move (m.ring.wq.worker i) state m.ring.wq.wq wq signals
          (room i inside c.wq.counted) e in
      record {
        manned = Step-Manned some_slot c.wq s.manned (work i state wq signals inside e) tt;
        unblocked = ap (λ w. w.queue_is_blocked) move.same ∙ s.unblocked;
      }
  RingStep-Staffed some_slot c s (System.destroy calls wq signals rests stopped going e) ok =
      record {
        manned = Step-Manned some_slot c.wq s.manned (destroy calls wq signals going e) tt;
        unblocked =
            ap (λ w. w.queue_is_blocked) (destroy_left c.wq calls wq signals going e) ∙ s.unblocked;
      }
  RingStep-Staffed {m = m} some_slot c s (System.issue_nop head tail ret d at_lap differ found) ok =
      rw (posting-wq m (nop d) (some (pos 0))) s
  RingStep-Staffed {m = m} some_slot c s (System.exec i sqe inside runs) ok =
      rw (posting-wq m sqe (exec_result handlers sqe m.world).0) s
  RingStep-Staffed {m = m} some_slot c s (System.prepare idx sqe rests found) ok =
      same-Staffed m.ring.wq _ s (ground arith)
  RingStep-Staffed {m = m} some_slot c s System.wait ok = same-Staffed m.ring.wq _ s (ground arith)
  RingStep-Staffed {m = m} some_slot c s System.wait_again ok =
      same-Staffed m.ring.wq _ s (ground arith)
  RingStep-Staffed some_slot c s _ ok = s

-- A run in which the calls of thread_create succeed.
pub data StaffedRing {P E : Type 0} (handlers : Handlers P E) (n : ℕ) (start : Machine P E)
    : Machine P E → Type 0 where
  here : StaffedRing handlers n start start
  next :
      {m m' : Machine P E}
      → StaffedRing handlers n start m
      → (step : RingStep handlers n m m') → Creates step
      → StaffedRing handlers n start m'

pub StaffedRing-Staffed :
    {P E : Type 0} {handlers : Handlers P E} {n sq_bits cq_bits : ℕ} {start m : Machine P E}
    → 0 < n
    → Core sq_bits cq_bits n start
    → Staffed n start.ring.wq
    → StaffedRing handlers n start m
    → Core sq_bits cq_bits n m × Staffed n m.ring.wq
StaffedRing-Staffed some_slot c s here = (c, s)
StaffedRing-Staffed some_slot c s (next r step ok) =
    let (c', s') = StaffedRing-Staffed some_slot c s r in
    (RingStep-Core c' step, RingStep-Staffed some_slot c' s' step ok)
