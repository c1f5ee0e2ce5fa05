-- ===== src/Ring/System/Safety.antt =====
-- What holds in every state of a ring with its work queue, its workers, the caller and a reader of
-- completions (core/ring.c), in any order of their steps.
use gnuweeb_bot.Common.{
  ℕ, ◌+◌, ◌≡◌, refl, sym, ap, ◌∙◌, Bool, true, false, Option, none, some, List, [], ◌∷◌, ◌++◌, ◌==◌,
  arith, get_elem?,
}
use gnuweeb_bot.Common.Family.{total, total-none}
use gnuweeb_bot.Common.Circular.{Circular, pop-Circular, counters_differ, is_empty}
use gnuweeb_bot.Workqueue.{Work}
use gnuweeb_bot.Workqueue.Store.{all_deletes}
use gnuweeb_bot.Ring.{GwRing, GwRingSqe, GwRingCqe}
use gnuweeb_bot.Ring.Complete.{gw_ring_load_head_cqe}
use gnuweeb_bot.Ring.Slots.{Completed}
use gnuweeb_bot.Ring.Submit.{Handlers}
use gnuweeb_bot.Ring.System.{resting, Machine, Visit, RingReach}
use gnuweeb_bot.Ring.System.Books.{tally, tally-append, of_sqe, of_work, of_cqe, in_call, waiting}
use gnuweeb_bot.Ring.System.Read.{CqSide, ahead}
use gnuweeb_bot.Ring.System.Inv.{SqSide, Core}
use gnuweeb_bot.Ring.System.Runs.{RingReach-Core}
use gnuweeb_bot.Ring.System.Kinds.{Kinds}
use gnuweeb_bot.Ring.System.Paced.{PacedRun, PacedRun-Core, paced_loses_none}

-- Where the submissions are: in the array of the ring, in the work queue, with a deleter that
-- destroy_workqueue has called, or with a completion that has not been given back; the rest is in
-- the history of `m`.
pub record Placed {P E : Type 0} (sq_bits cq_bits n : ℕ) (m : Machine P E) : Type 0 where
  pub queue : List (GwRingSqe P)
  pub pending : List (Work (GwRingSqe P))
  pub dropped : List (Work (GwRingSqe P))
  pub cqs : List GwRingCqe
  pub in_ring : SqSide sq_bits m.ring m.submitter queue
  pub in_wq :
      (bits : ℕ) × Circular bits m.ring.wq.wq.work_list m.ring.wq.wq.mask m.ring.wq.wq.head
        m.ring.wq.wq.tail pending
  pub deleted : m.ring.wq.cleared ≡ all_deletes dropped
  pub completed : Completed cq_bits m.ring cqs
  pub once :
      (key : ℕ → ℕ → Bool)
      → tally (of_sqe key) m.prepared
        ≡ tally (of_sqe key) queue
          + waiting key m.submitter
          + tally (of_sqe key) m.refused
          + tally (of_work key) dropped
          + tally (of_work key) pending
          + total (in_call key) n m.call
          + tally (of_sqe key) m.lost
          + tally (of_cqe key) m.seen
          + tally (of_cqe key) cqs

-- What loading a completion gives: nothing, or the index of the first of the rest.
abbrev pub Loads : List GwRingCqe → (cqes : List GwRingCqe) → Option ℕ → Type 0
Loads [] cqes loaded = loaded ≡ none
Loads (cqe ∷ rest) cqes loaded = (idx : ℕ) × (loaded ≡ some idx) × (get_elem? cqes idx ≡ some cqe)

no_items {ℓ} : {A : Type ℓ} (xs : List A) → is_empty xs ≡ true → xs ≡ []
no_items [] e = refl
no_items (x ∷ xs) e = absurd (cc)

gw_ring_load_head_cqe-Loads :
    {P W : Type 0} {bits : ℕ} (ring : GwRing P W) (head : ℕ) (rest : List GwRingCqe)
    → Circular bits ring.cqes ring.cq_mask head ring.cq_tail rest
    → Loads rest ring.cqes (gw_ring_load_head_cqe ring head)
unfolding gw_ring_load_head_cqe
gw_ring_load_head_cqe-Loads ring head [] held = rw (counters_differ [] held) refl
gw_ring_load_head_cqe-Loads ring head (cqe ∷ rest) held =
    rw (counters_differ (cqe ∷ rest) held) (_, refl, (pop-Circular held).0)

module _ {P E : Type 0} {handlers : Handlers P E} {sq_bits cq_bits n : ℕ} {start m : Machine P E}
    (c : Core sq_bits cq_bits n start) where
  -- From a good start, in every order of steps: of the submissions filled, those with any given
  -- operations and `user_data` are as many as those in the array of the ring, asleep in queue_work,
  -- not issued, deleted by destroy_workqueue, pending, run by workers, without room for a completion,
  -- given back, and completed, taken together.
  pub each_in_one_place : RingReach handlers n start m → Placed sq_bits cq_bits n m
  each_in_one_place r =
      let c' = RingReach-Core c r in
      let s = c'.wq.stored in
      record {
        queue = c'.queue;
        pending = s.pending;
        dropped = s.dropped;
        cqs = c'.cq.cqs;
        in_ring = c'.sq;
        in_wq = (s.bits, s.ring);
        deleted = s.calls;
        completed = c'.cq.completions;
        once = λ key. omega (
          arith,
          c'.books key,
          ap (tally (of_work key)) s.order,
          tally-append (of_work key) m.ring.wq.taken (s.dropped ++ s.pending),
          tally-append (of_work key) s.dropped s.pending,
          ap (tally (of_cqe key)) c'.cq.order,
          tally-append (of_cqe key) m.seen c'.cq.cqs,
        );
      }

  -- From a good start, in every order of steps, while gw_ring_for_each_cqe runs and workers post:
  -- the completions posted are those given back, those this visit has read, and the rest, in the
  -- order in which they were posted; the next one it loads is the first of the rest, inside the
  -- array, and it loads none exactly if there is none.
  pub read_in_order :
      (v : Visit)
      → RingReach handlers n start m
      → m.visit ≡ some v
      → (rest : List GwRingCqe) × (m.posted ≡ m.seen ++ (v.read ++ rest))
        × Loads rest m.ring.cqes (gw_ring_load_head_cqe m.ring v.head)
  read_in_order v r at =
      let c' = RingReach-Core c r in
      let cq : CqSide cq_bits m.ring m.posted m.seen (some v) = rw at at c'.cq in
      let (rest, split, _) = cq.reads in
      (
        rest,
        cq.order ∙ rw split refl,
        gw_ring_load_head_cqe-Loads m.ring v.head rest (ahead m.ring v cq),
      )

  -- From a good start that has lost none and has only known operations in its work queue, with a
  -- caller that keeps to the limits: when the caller is outside gw_ring_submit and nothing is left to
  -- submit, nothing is pending in a work queue that is not stopped, and no worker runs a callback,
  -- the submissions filled, those with any given operations and `user_data`, are as many as those of
  -- them not issued and the completions posted for such, taken together.
  pub quiet_completes :
      Kinds n start
      → start.lost ≡ []
      → PacedRun handlers n start m
      → m.submitter ≡ resting
      → (m.ring.sq_head == m.ring.sq_tail) ≡ true
      → m.ring.wq.wq.should_stop ≡ false
      → (m.ring.wq.wq.head == m.ring.wq.wq.tail) ≡ true
      → ((i : ℕ) → m.call i ≡ none)
      → (key : ℕ → ℕ → Bool)
      → tally (of_sqe key) m.prepared ≡ tally (of_sqe key) m.refused + tally (of_cqe key) m.posted
  quiet_completes k none_lost r rests issued going drained idle key =
      let (c', k') = PacedRun-Core c k r in
      let s = c'.wq.stored in
      let held : Circular sq_bits m.ring.sqes m.ring.sq_mask m.ring.sq_head m.ring.sq_tail
          c'.queue =
        rw rests at c'.sq.submissions in
      let no_queue : c'.queue ≡ [] =
        no_items c'.queue (sym (counters_differ c'.queue held) ∙ issued) in
      let no_pending : s.pending ≡ [] =
        no_items s.pending (sym (counters_differ s.pending s.ring) ∙ drained) in
      omega (
        arith,
        c'.books key,
        ap (tally (of_sqe key)) no_queue,
        ap (waiting key) rests,
        ap (tally (of_work key)) s.order,
        tally-append (of_work key) m.ring.wq.taken (s.dropped ++ s.pending),
        tally-append (of_work key) s.dropped s.pending,
        ap (tally (of_work key)) (s.going going),
        ap (tally (of_work key)) no_pending,
        total-none (in_call key) n m.call (λ i. ap (in_call key) (idle i)),
        ap (tally (of_sqe key)) (paced_loses_none c k r ∙ none_lost),
      )
