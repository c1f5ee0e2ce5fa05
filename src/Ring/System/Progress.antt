-- ===== src/Ring/System/Progress.antt =====
-- Steps that bring a ring further, and the worker for what it has punted (core/ring.c,
-- core/workqueue.c).
use gnuweeb_bot.Common.{ℕ, ◌≡◌, some}
use gnuweeb_bot.Common.Int.{pos}
use gnuweeb_bot.Workqueue.{Workqueue, Work}
use gnuweeb_bot.Workqueue.Submit.{queue_work_wake}
use gnuweeb_bot.Workqueue.Worker.{running}
use gnuweeb_bot.Ring.{GwRingSqe, other}
use gnuweeb_bot.Ring.Submit.{Handlers}
use gnuweeb_bot.Ring.Pool.{sqe_work}
use gnuweeb_bot.Ring.System
use gnuweeb_bot.Ring.System.{Submitter, resting, issuing, queueing, Machine, RingStep}
use gnuweeb_bot.Ring.System.Staffed.{Staffed}

module _ {P E : Type 0} {handlers : Handlers P E} {n : ℕ} where
  -- A step that brings a submission further, or ends a call of gw_ring_submit: a worker runs its
  -- callback or takes a work, a submission is issued, or a caller asleep in queue_work is done.
  abbrev pub Advances : {m m' : Machine P E} → RingStep handlers n m m' → Type 0
  Advances (System.issue_nop head tail ret d at_lap differ found) = Unit
  Advances (System.punt create head tail ret sqe at_lap differ found goes) = Unit
  Advances (System.refuse head tail ret sqe at_lap differ found unknown) =
      (k d : ℕ) × (sqe ≡ other k d)
  Advances {m = m} (System.punt_again create head tail ret sqe asleep) =
      (queue_work_wake create m.ring.wq.wq (sqe_work sqe)).0 ≡ some (pos 0)
  Advances (System.submitted head tail ret at_lap over) = Unit
  Advances (System.work i state wq signals inside free e) =
      (job : Work (GwRingSqe P)) × (state ≡ running job)
  Advances (System.exec i sqe inside runs) = Unit
  Advances _ = ⊥
