-- ===== src/Ring/System/Kinds.antt =====
-- Only the operations of the enumeration go to the work queue of a ring (core/ring.c).
use gnuweeb_bot.Common.{
  ℕ, ◌<◌, ◌≡◌, refl, sym, ap, ◌∙◌, Bool, true, false, Option, none, some, List, ◌++◌, arith, leb,
}
use mathlib.Core.Path.{subst}
use gnuweeb_bot.Common.Int.{ℤ, pos}
use gnuweeb_bot.Common.Family.{assign, total, total-assign}
use gnuweeb_bot.Workqueue.{Workqueue, Work, Signal}
use gnuweeb_bot.Workqueue.Worker.{WorkerState}
use gnuweeb_bot.Workqueue.Submit.{queue_work_wake}
use gnuweeb_bot.Workqueue.Grown.{Lap, stops, sleeps, accepts, queue_work_lap-Lap}
use gnuweeb_bot.Workqueue.System.{after_work, log_accepted, log_taken}
use gnuweeb_bot.Workqueue.System.Inv.{Inv}
use gnuweeb_bot.Ring.{GwRingSqe, nop, tg_api_call, tg_module_handle, other}
use gnuweeb_bot.Ring.Prep.{gw_ring_get_sqe}
use gnuweeb_bot.Ring.Complete.{wait_cqe_lap, wait_cqe_wake, gw_ring_cq_advance}
use gnuweeb_bot.Ring.Init.{gw_ring_stop}
use gnuweeb_bot.Ring.Submit.{Handlers}
use gnuweeb_bot.Ring.Pool.{sqe_work}
use gnuweeb_bot.Ring.System
use gnuweeb_bot.Ring.System.{
  Submitter, queueing, Machine, posting, punted, after_punt, starts_call, goes_to_wq, RingStep,
}
use gnuweeb_bot.Ring.System.Books.{
  tally, tally-append, tally-snoc, of_sqe, of_work, in_call, waiting, taken-call,
}
use gnuweeb_bot.Ring.System.Inv.{Core, Posted, posting-Posted, posted-same}
use gnuweeb_bot.Ring.System.Submits.{roused}
use gnuweeb_bot.Ring.System.Runs.{work-Core}

-- An operation outside the enumeration.
abbrev pub unknown_op : ℕ → ℕ → Bool
unknown_op op user_data = leb 3 op

pub record Kinds {P E : Type 0} (n : ℕ) (m : Machine P E) : Type 0 where
  pub accepted : tally (of_work unknown_op) m.ring.wq.accepted ≡ 0
  pub asleep : waiting unknown_op m.submitter ≡ 0
  pub calls : total (in_call unknown_op) n m.call ≡ 0

module _ {P : Type 0} where
  goes-known : (sqe : GwRingSqe P) → goes_to_wq sqe ≡ true → of_sqe unknown_op sqe ≡ false
  goes-known (tg_api_call d call) e = refl
  goes-known (tg_module_handle d handle) e = refl
  goes-known (nop d) e = cc
  goes-known (other k d) e = cc

  asleep-known :
      (head tail ret : ℕ) (sqe : GwRingSqe P)
      → waiting unknown_op (queueing head tail ret sqe) ≡ 0
      → of_sqe unknown_op sqe ≡ false
  asleep-known head tail ret sqe e = ground arith

  punt-kinds :
      (wq : Workqueue (GwRingSqe P)) (head tail ret : ℕ) (sqe : GwRingSqe P)
      (out : Option ℤ × Workqueue (GwRingSqe P) × List Signal)
      (accepted : List (Work (GwRingSqe P)))
      → of_sqe unknown_op sqe ≡ false
      → Lap wq (sqe_work sqe) out
      → tally (of_work unknown_op) accepted ≡ 0
      → (waiting unknown_op (after_punt out.0 head tail ret sqe) ≡ 0)
        × (tally (of_work unknown_op) (log_accepted out.0 (sqe_work sqe) accepted) ≡ 0)
  punt-kinds wq head tail ret sqe out accepted known (stops _ e) zeros = rw e (refl, zeros)
  punt-kinds wq head tail ret sqe out accepted known (sleeps _ _ e) zeros =
      rw e (rw known refl, zeros)
  punt-kinds wq head tail ret sqe out accepted known (accepts workers signals _ _ _ e) zeros =
      rw e (refl, tally-snoc (of_work unknown_op) accepted (sqe_work sqe) ∙ rw (zeros, known) refl)

module _ {P E : Type 0} {n : ℕ} {m : Machine P E} (k : Kinds n m) where
  punted-Kinds :
      (wq : Workqueue (GwRingSqe P)) (head tail ret : ℕ) (sqe : GwRingSqe P)
      (out : Option ℤ × Workqueue (GwRingSqe P) × List Signal)
      → of_sqe unknown_op sqe ≡ false
      → Lap wq (sqe_work sqe) out
      → Kinds n (punted m head tail ret sqe out)
  punted-Kinds wq head tail ret sqe out known lap =
      let (sleeps_known, accepts_known) =
        punt-kinds wq head tail ret sqe out m.ring.wq.accepted known lap k.accepted in
      record { accepted = accepts_known; asleep = sleeps_known; calls = k.calls }

  -- What a worker takes has been accepted.
  work-Kinds :
      (i : ℕ) (state : WorkerState (GwRingSqe P)) (wq : Workqueue (GwRingSqe P))
      → i < n
      → Inv n 1 (after_work m.ring.wq i state wq)
      → Kinds n (record m {
        ring = record m.ring { wq = after_work m.ring.wq i state wq };
        call = assign m.call i (starts_call state);
      })
  work-Kinds i state wq inside inv = record {
    accepted = k.accepted;
    asleep = k.asleep;
    calls =
        let s = inv.stored in
        omega (
          arith,
          k.calls,
          k.accepted,
          ap (tally (of_work unknown_op)) s.order,
          tally-append (of_work unknown_op) (log_taken state m.ring.wq.taken)
              (s.dropped ++ s.pending),
          taken-call unknown_op state m.ring.wq.taken,
          total-assign (in_call unknown_op) n m.call i (starts_call state) inside,
        );
  }

  over-Kinds : (sqe : GwRingSqe P) (out : Machine P E) → Posted m sqe out → Kinds n out
  over-Kinds sqe out p =
      subst (λ o. Kinds n o) (sym (posted-same m out sqe p))
        (record { accepted = k.accepted; asleep = k.asleep; calls = k.calls })

  -- A step of another part.
  aside-Kinds :
      (m' : Machine P E)
      → m'.ring.wq ≡ m.ring.wq
      → m'.submitter ≡ m.submitter
      → m'.call ≡ m.call
      → Kinds n m'
  aside-Kinds m' wq submitter call = record {
    accepted = rw wq k.accepted;
    asleep = rw submitter k.asleep;
    calls = rw call k.calls;
  }

  -- Every step keeps to the operations of the enumeration.
  pub RingStep-Kinds :
      {handlers : Handlers P E} {sq_bits cq_bits : ℕ} {m' : Machine P E}
      → Core sq_bits cq_bits n m
      → RingStep handlers n m m'
      → Kinds n m'
  unfolding queue_work_wake gw_ring_get_sqe wait_cqe_lap wait_cqe_wake gw_ring_stop
      gw_ring_cq_advance
  RingStep-Kinds c (System.prepare idx sqe rests found) = aside-Kinds _ (ground arith) refl refl
  RingStep-Kinds c (System.submit rests going) = record {
    accepted = k.accepted;
    asleep = refl;
    calls = k.calls;
  }
  RingStep-Kinds c (System.issue_nop head tail ret d at_lap differ found) =
      let over = over-Kinds (nop d) _ (posting-Posted m (nop d) (some (pos 0))) in
      record { accepted = over.accepted; asleep = refl; calls = k.calls }
  RingStep-Kinds c (System.refuse head tail ret sqe at_lap differ found _) = record {
    accepted = k.accepted;
    asleep = refl;
    calls = k.calls;
  }
  RingStep-Kinds c (System.punt create head tail ret sqe at_lap differ found goes) =
      punted-Kinds m.ring.wq.wq _ tail ret sqe _ (goes-known sqe goes)
        (queue_work_lap-Lap create m.ring.wq.wq (sqe_work sqe))
  RingStep-Kinds c (System.punt_again create head tail ret sqe asleep) =
      punted-Kinds (roused m.ring.wq.wq) head tail ret sqe _
        (asleep-known head tail ret sqe (sym (ap (waiting unknown_op) asleep) ∙ k.asleep))
        (queue_work_lap-Lap create (roused m.ring.wq.wq) (sqe_work sqe))
  RingStep-Kinds c (System.submitted head tail ret at_lap over) = record {
    accepted = k.accepted;
    asleep = refl;
    calls = k.calls;
  }
  RingStep-Kinds c (System.work i state wq signals inside free e) =
      work-Kinds i state wq inside (work-Core c i state wq signals inside free e).wq
  RingStep-Kinds c (System.exec i sqe inside runs) =
      let over = over-Kinds sqe _ (posting-Posted m sqe _) in
      record {
        accepted = over.accepted;
        asleep = over.asleep;
        calls = omega (
          arith,
          k.calls,
          ap (in_call unknown_op) runs,
          total-assign (in_call unknown_op) n m.call i none inside,
        );
      }
  RingStep-Kinds c System.wait = aside-Kinds _ (ground arith) refl refl
  RingStep-Kinds c System.wait_again = aside-Kinds _ (ground arith) refl refl
  RingStep-Kinds c (System.visit_begin idle) = aside-Kinds _ refl refl refl
  RingStep-Kinds c (System.visit_next v idx cqe at found read) = aside-Kinds _ refl refl refl
  RingStep-Kinds c (System.visit_end v all at same) = aside-Kinds _ refl refl refl
  RingStep-Kinds c (System.stop rests) = aside-Kinds _ refl refl refl
  RingStep-Kinds c (System.destroy calls wq signals rests stopped going e) = record {
    accepted = k.accepted;
    asleep = k.asleep;
    calls = k.calls;
  }
