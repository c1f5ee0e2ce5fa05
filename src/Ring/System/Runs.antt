-- ===== src/Ring/System/Runs.antt =====
-- The other steps of a ring with its work queue (core/ring.c), and every run of them, keep the
-- invariant of the system.
use gnuweeb_bot.Common.{
  ℕ, ◌<◌, ◌≡◌, refl, sym, ap, ◌∙◌, false, Option, none, some, List, ◌++◌, ◌==◌, arith, length,
  bit_and, get_elem?,
}
use mathlib.Core.Path.{subst}
use gnuweeb_bot.Common.Int.{pos}
use gnuweeb_bot.Common.Word.{u32_add}
use gnuweeb_bot.Common.Family.{assign, total-assign}
use gnuweeb_bot.Workqueue.{Workqueue, Call, Signal}
use gnuweeb_bot.Workqueue.Worker.{WorkerState, worker_step}
use gnuweeb_bot.Workqueue.Destroy.{destroy_begin}
use gnuweeb_bot.Workqueue.System.{after_work, Step, work, destroy}
use gnuweeb_bot.Workqueue.System.Inv.{Step-Inv}
use gnuweeb_bot.Ring.{GwRing, GwRingSqe, nop}
use gnuweeb_bot.Ring.Complete.{wait_cqe_lap, wait_cqe_wake, gw_ring_cq_advance}
use gnuweeb_bot.Ring.Init.{gw_ring_stop}
use gnuweeb_bot.Ring.Submit.{Handlers}
use gnuweeb_bot.Ring.System
use gnuweeb_bot.Ring.System.{issuing, Machine, Visit, starts_call, RingStep, RingReach}
use gnuweeb_bot.Ring.System.Books.{tally, of_sqe, in_call, waiting, taken-call}
use gnuweeb_bot.Ring.System.Read.{CqSide, begin-CqSide, next-CqSide, end-CqSide}
use gnuweeb_bot.Ring.System.Inv.{
  queuer_of, Core, Posted, posting-Posted, posted-books, posted-CqSide, posted-same,
}
use gnuweeb_bot.Ring.System.Submits.{
  issued, prepare-Core, submit-Core, refuse-Core, punt-Core, punt_again-Core, submitted-Core,
}

module _ {P E : Type 0} {sq_bits cq_bits n : ℕ} {m : Machine P E}
    (c : Core sq_bits cq_bits n m) where
  -- A NOP is over when it is issued.
  issue_nop-Core :
      (head tail ret ret' : ℕ) (sqe : GwRingSqe P) (out : Machine P E)
      → Posted m sqe out
      → m.submitter ≡ issuing head tail ret
      → (head == tail) ≡ false
      → get_elem? m.ring.sqes (bit_and head m.ring.sq_mask) ≡ some sqe
      → Core sq_bits cq_bits n (record out { submitter = issuing (u32_add head 1) tail ret' })
  issue_nop-Core head tail ret ret' sqe out p at_lap differ found =
      let (rest, split, sq) = issued c head tail ret sqe at_lap differ found in
      subst
        (λ o. Core sq_bits cq_bits n (record o { submitter = issuing (u32_add head 1) tail ret' }))
        (sym (posted-same m out sqe p))
        (record {
          queue = rest;
          sq = record { submissions = sq.submissions; span = sq.span };
          cq = posted-CqSide m out sqe p c.cq;
          wq = c.wq;
          caller = c.caller ∙ ap queuer_of at_lap;
          books = λ key. omega (
            arith,
            c.books key,
            ap (tally (of_sqe key)) split,
            ap (waiting key) at_lap,
            posted-books m out sqe key p,
          );
        })

  exec-Core :
      (i : ℕ) (sqe : GwRingSqe P) (out : Machine P E) (world : E)
      → Posted m sqe out
      → i < n
      → m.call i ≡ some sqe
      → Core sq_bits cq_bits n (record out { call = assign m.call i none; world = world })
  exec-Core i sqe out world p inside runs =
      subst (λ o. Core sq_bits cq_bits n (record o { call = assign m.call i none; world = world }))
        (sym (posted-same m out sqe p))
        (record {
          queue = c.queue;
          sq = c.sq;
          cq = posted-CqSide m out sqe p c.cq;
          wq = c.wq;
          caller = c.caller;
          books = λ key. omega (
            arith,
            c.books key,
            total-assign (in_call key) n m.call i none inside,
            ap (in_call key) runs,
            posted-books m out sqe key p,
          );
        })

  pub work-Core :
      (i : ℕ) (state : WorkerState (GwRingSqe P)) (wq : Workqueue (GwRingSqe P))
      (signals : List Signal)
      → i < n
      → m.call i ≡ none
      → worker_step (m.ring.wq.worker i) m.ring.wq.wq ≡ some (state, wq, signals)
      → Core sq_bits cq_bits n (record m {
        ring = record m.ring { wq = after_work m.ring.wq i state wq };
        call = assign m.call i (starts_call state);
      })
  work-Core i state wq signals inside free e = record {
    queue = c.queue;
    sq = c.sq;
    cq = c.cq;
    wq =
        let step : Step n 1 m.ring.wq (after_work m.ring.wq i state wq) =
          work i state wq signals inside e in
        Step-Inv c.wq step;
    caller = c.caller;
    books = λ key. omega (
      arith,
      c.books key,
      total-assign (in_call key) n m.call i (starts_call state) inside,
      ap (in_call key) free,
      taken-call key state m.ring.wq.taken,
    );
  }

  -- A step that changes other fields of the ring.
  wait-Core :
      (ring : GwRing P _)
      → ring ≡ record m.ring {
        wait_cqe_cond_flag = ring.wait_cqe_cond_flag;
        should_stop = ring.should_stop;
      }
      → Core sq_bits cq_bits n (record m { ring = ring })
  wait-Core ring e =
      subst (λ r. Core sq_bits cq_bits n (record m { ring = r })) (sym e)
        (record {
          queue = c.queue;
          sq = c.sq;
          cq = c.cq;
          wq = c.wq;
          caller = c.caller;
          books = c.books;
        })

  visit-Core :
      (visit : Option Visit)
      → CqSide cq_bits m.ring m.posted m.seen visit
      → Core sq_bits cq_bits n (record m { visit = visit })
  visit-Core visit cq = record {
    queue = c.queue;
    sq = c.sq;
    cq = cq;
    wq = c.wq;
    caller = c.caller;
    books = c.books;
  }

  visit_end-Core :
      (v : Visit) (k : ℕ)
      → m.visit ≡ some v
      → k ≡ length v.read
      → Core sq_bits cq_bits n
          (record m { ring = gw_ring_cq_advance m.ring k; visit = none; seen = m.seen ++ v.read })
  unfolding gw_ring_cq_advance
  visit_end-Core v k at all = record {
    queue = c.queue;
    sq = c.sq;
    cq = rw all (end-CqSide m.ring v (rw at at c.cq));
    wq = c.wq;
    caller = c.caller;
    books = c.books;
  }

  destroy-Core :
      (calls : List (Call (GwRingSqe P))) (wq : Workqueue (GwRingSqe P)) (signals : List Signal)
      → m.ring.wq.wq.should_stop ≡ false
      → destroy_begin m.ring.wq.wq ≡ some (calls, wq, signals)
      → Core sq_bits cq_bits n
          (record m { ring = record m.ring { wq = record m.ring.wq { wq = wq; cleared = calls } } })
  destroy-Core calls wq signals going e = record {
    queue = c.queue;
    sq = c.sq;
    cq = c.cq;
    wq =
        let step : Step n 1 m.ring.wq (record (m.ring.wq) { wq = wq; cleared = calls }) =
          destroy calls wq signals going e in
        Step-Inv c.wq step;
    caller = c.caller;
    books = c.books;
  }

module _ {P E : Type 0} {handlers : Handlers P E} {sq_bits cq_bits n : ℕ} where
  -- Every step of every thread keeps the invariant.
  pub RingStep-Core :
      {m m' : Machine P E}
      → Core sq_bits cq_bits n m
      → RingStep handlers n m m'
      → Core sq_bits cq_bits n m'
  unfolding wait_cqe_lap wait_cqe_wake gw_ring_stop
  RingStep-Core c (System.prepare idx sqe rests found) = prepare-Core c idx sqe rests found
  RingStep-Core c (System.submit rests going) = submit-Core c rests
  RingStep-Core {m} c (System.issue_nop head tail ret d at_lap differ found) =
      issue_nop-Core c head tail ret _ (nop d) _ (posting-Posted m (nop d) (some (pos 0))) at_lap
        differ found
  RingStep-Core c (System.refuse head tail ret sqe at_lap differ found _) =
      refuse-Core c head tail ret sqe at_lap differ found
  RingStep-Core c (System.punt create head tail ret sqe at_lap differ found _) =
      punt-Core c create head tail ret sqe at_lap differ found
  RingStep-Core c (System.punt_again create head tail ret sqe asleep) =
      punt_again-Core c create head tail ret sqe asleep
  RingStep-Core c (System.submitted head tail ret at_lap over) =
      submitted-Core c head tail ret at_lap over
  RingStep-Core c (System.work i state wq signals inside free e) =
      work-Core c i state wq signals inside free e
  RingStep-Core {m} c (System.exec i sqe inside runs) =
      exec-Core c i sqe _ _ (posting-Posted m sqe _) inside runs
  RingStep-Core {m} c System.wait = wait-Core c _ (ground arith)
  RingStep-Core {m} c System.wait_again = wait-Core c _ (ground arith)
  RingStep-Core {m} c (System.visit_begin idle) =
      visit-Core c _ (begin-CqSide m.ring (rw idle at c.cq))
  RingStep-Core {m} c (System.visit_next v idx cqe at found read) =
      visit-Core c _ (next-CqSide m.ring v idx cqe found read (rw at at c.cq))
  RingStep-Core c (System.visit_end v k at all) = visit_end-Core c v k at all
  RingStep-Core {m} c (System.stop rests) = wait-Core c _ refl
  RingStep-Core c (System.destroy calls wq signals rests stops going e) =
      destroy-Core c calls wq signals going e

  -- So does every run.
  pub RingReach-Core :
      {start m : Machine P E}
      → Core sq_bits cq_bits n start
      → RingReach handlers n start m
      → Core sq_bits cq_bits n m
  RingReach-Core c System.here = c
  RingReach-Core c (System.next r step) = RingStep-Core (RingReach-Core c r) step
