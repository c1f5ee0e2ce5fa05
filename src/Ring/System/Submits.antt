-- ===== src/Ring/System/Submits.antt =====
-- The steps of the thread that submits to a ring (core/ring.c) keep the invariant of the system.
use gnuweeb_bot.Common.{
  ℕ, ◌+◌, ◌≡◌, refl, ap, ◌∙◌, Bool, true, false, Option, none, some, List, [], ◌∷◌, ◌++◌, ◌==◌,
  arith, leb, bit_and, get_elem?, if◌then◌else◌,
}
use gnuweeb_bot.Common.Int.{ℤ}
use gnuweeb_bot.Common.Word.{u32_add, u32_sub, llabs_diff}
use gnuweeb_bot.Common.Circular.{Circular, push-Circular, pop-Circular, counters_differ, looks_full}
use gnuweeb_bot.Workqueue.{Workqueue, Signal}
use gnuweeb_bot.Workqueue.Submit.{queue_work_lap, queue_work_wake}
use gnuweeb_bot.Workqueue.Grown.{Lap, queue_work_lap-Lap}
use gnuweeb_bot.Workqueue.System.{settle, after_lap, Step, submit, retry}
use gnuweeb_bot.Workqueue.System.Inv.{Inv, Step-Inv}
use gnuweeb_bot.Ring.{GwRing, GwRingSqe}
use gnuweeb_bot.Ring.Prep.{gw_ring_get_sqe, fill_sqe}
use gnuweeb_bot.Ring.Slots.{mask_fits, llabs_diff_comm}
use gnuweeb_bot.Ring.Pool.{sqe_work}
use gnuweeb_bot.Ring.System.{resting, issuing, queueing, Machine, punted, after_punt}
use gnuweeb_bot.Ring.System.Books.{tally, tally-snoc, of_sqe, waiting, punt-books}
use gnuweeb_bot.Ring.System.Inv.{queuer_of, SqHeld, SqSide, Core}

-- A submission that gw_ring_get_sqe gives.
get_sqe_some :
    {P W : Type 0} (ring : GwRing P W) (idx : ℕ)
    → (gw_ring_get_sqe ring).0 ≡ some idx
    → (leb (u32_add ring.sq_mask 1) (llabs_diff ring.sq_head ring.sq_tail) ≡ false)
      × (gw_ring_get_sqe ring ≡ (
        some (bit_and ring.sq_tail ring.sq_mask),
        record ring { sq_tail = u32_add ring.sq_tail 1 },
      ))
unfolding gw_ring_get_sqe
get_sqe_some ring idx e = ground arith

-- The work queue as a caller that wakes in queue_work leaves its wait.
abbrev pub roused : {A : Type 0} → Workqueue A → Workqueue A
roused wq = record wq { nr_sleeping_queuers = u32_sub wq.nr_sleeping_queuers 1 }

module _ {P : Type 0} where
  punt-SqHeld :
      {bits : ℕ} {sqes queue : List (GwRingSqe P)} {mask sq_head sq_tail : ℕ} (result : Option ℤ)
      (head tail ret : ℕ) (sqe : GwRingSqe P)
      → Circular bits sqes mask head sq_tail queue
      → tail ≡ sq_tail
      → SqHeld bits sqes mask sq_head sq_tail (after_punt result head tail ret sqe) queue
  punt-SqHeld none head tail ret sqe held same = record { submissions = held; span = same }
  punt-SqHeld (some status) head tail ret sqe held same = record { submissions = held; span = same }

  punt-queuer :
      (result : Option ℤ) (head tail ret : ℕ) (sqe : GwRingSqe P)
      → settle result (sqe_work sqe) ≡ queuer_of (after_punt result head tail ret sqe)
  punt-queuer none head tail ret sqe = refl
  punt-queuer (some status) head tail ret sqe = refl

module _ {P E : Type 0} {sq_bits cq_bits n : ℕ} {m : Machine P E}
    (c : Core sq_bits cq_bits n m) where
  pub prepare-Core :
      (idx : ℕ) (sqe : GwRingSqe P)
      → m.submitter ≡ resting
      → (gw_ring_get_sqe m.ring).0 ≡ some idx
      → Core sq_bits cq_bits n (record m {
        ring = fill_sqe idx sqe (gw_ring_get_sqe m.ring).1;
        prepared = m.prepared ++ sqe ∷ [];
      })
  prepare-Core idx sqe rests found =
      let (below, got) = get_sqe_some m.ring idx found in
      let held : Circular sq_bits m.ring.sqes m.ring.sq_mask m.ring.sq_head m.ring.sq_tail c.queue =
        rw rests at c.sq.submissions in
      let full = looks_full held in
      let fits = mask_fits held in
      let slot : idx ≡ bit_and m.ring.sq_tail m.ring.sq_mask = cc in
      let left : (gw_ring_get_sqe m.ring).1
          ≡ record (m.ring) { sq_tail = u32_add m.ring.sq_tail 1 } =
        ap (λ r. r.1) got in
      rw (left, slot)
        (record {
          queue = c.queue ++ sqe ∷ [];
          sq = rw rests (record {
            submissions =
                push-Circular sqe held
                  (ground (arith, llabs_diff_comm m.ring.sq_head m.ring.sq_tail));
            span = refl;
          });
          cq = c.cq;
          wq = c.wq;
          caller = c.caller;
          books = λ key. omega (
            arith,
            c.books key,
            tally-snoc (of_sqe key) m.prepared sqe,
            tally-snoc (of_sqe key) c.queue sqe,
          );
        })

  pub submit-Core :
      m.submitter ≡ resting
      → Core sq_bits cq_bits n (record m { submitter = issuing m.ring.sq_head m.ring.sq_tail 0 })
  submit-Core rests = record {
    queue = c.queue;
    sq = record { submissions = rw rests at c.sq.submissions; span = refl };
    cq = c.cq;
    wq = c.wq;
    caller = c.caller ∙ ap queuer_of rests;
    books = λ key. let books = c.books key in rw rests at books;
  }

  -- The next submission of a lap.
  pub issued :
      (head tail ret : ℕ) (sqe : GwRingSqe P)
      → m.submitter ≡ issuing head tail ret
      → (head == tail) ≡ false
      → get_elem? m.ring.sqes (bit_and head m.ring.sq_mask) ≡ some sqe
      → (rest : List (GwRingSqe P)) × (c.queue ≡ sqe ∷ rest)
        × SqSide sq_bits m.ring (issuing (u32_add head 1) tail ret) rest
  issued head tail ret sqe at_lap differ found = from c.queue refl
    where
      held : Circular sq_bits m.ring.sqes m.ring.sq_mask head m.ring.sq_tail c.queue
      held = rw at_lap at c.sq.submissions

      same_tail : tail ≡ m.ring.sq_tail
      same_tail = rw at_lap at c.sq.span

      from :
          (queue : List (GwRingSqe P))
          → c.queue ≡ queue
          → (rest : List (GwRingSqe P)) × (c.queue ≡ sqe ∷ rest)
            × SqSide sq_bits m.ring (issuing (u32_add head 1) tail ret) rest
      from [] e = let empty = counters_differ [] (rw e at held) in absurd (cc)
      from (first ∷ rest) e =
          let popped = pop-Circular (rw e at held) in
          let same : first ≡ sqe = cc in
          (rest, e ∙ rw same refl, record { submissions = popped.1; span = same_tail })

  pub refuse-Core :
      (head tail ret : ℕ) (sqe : GwRingSqe P)
      → m.submitter ≡ issuing head tail ret
      → (head == tail) ≡ false
      → get_elem? m.ring.sqes (bit_and head m.ring.sq_mask) ≡ some sqe
      → Core sq_bits cq_bits n (record m {
        submitter = issuing (u32_add head 1) tail ret;
        refused = m.refused ++ sqe ∷ [];
      })
  refuse-Core head tail ret sqe at_lap differ found =
      let (rest, split, sq) = issued head tail ret sqe at_lap differ found in
      record {
        queue = rest;
        sq = sq;
        cq = c.cq;
        wq = c.wq;
        caller = c.caller ∙ ap queuer_of at_lap;
        books = λ key. omega (
          arith,
          c.books key,
          ap (tally (of_sqe key)) split,
          ap (waiting key) at_lap,
          tally-snoc (of_sqe key) m.refused sqe,
        );
      }

  -- What a lap of queue_work leaves; `rest` is still to be issued.
  punted-Core :
      (wq : Workqueue (GwRingSqe P)) (head tail ret : ℕ) (sqe : GwRingSqe P)
      (out : Option ℤ × Workqueue (GwRingSqe P) × List Signal) (rest : List (GwRingSqe P))
      → Lap wq (sqe_work sqe) out
      → Inv n 1 (after_lap m.ring.wq 0 (sqe_work sqe) out)
      → SqSide sq_bits m.ring (issuing head tail ret) rest
      → ((key : ℕ → ℕ → Bool)
          → tally (of_sqe key) c.queue + waiting key m.submitter
            ≡ tally (of_sqe key) rest + (if of_sqe key sqe then 1 else 0))
      → Core sq_bits cq_bits n (punted m head tail ret sqe out)
  punted-Core wq head tail ret sqe out rest lap inv sq moves = record {
    queue = rest;
    sq = punt-SqHeld out.0 head tail ret sqe sq.submissions sq.span;
    cq = c.cq;
    wq = inv;
    caller = punt-queuer out.0 head tail ret sqe;
    books = λ key. omega (
      arith,
      c.books key,
      moves key,
      punt-books key wq head tail ret sqe out m.ring.wq.accepted m.refused lap,
    );
  }

  pub punt-Core :
      (create : ℕ → ℤ) (head tail ret : ℕ) (sqe : GwRingSqe P)
      → m.submitter ≡ issuing head tail ret
      → (head == tail) ≡ false
      → get_elem? m.ring.sqes (bit_and head m.ring.sq_mask) ≡ some sqe
      → Core sq_bits cq_bits n (
          punted m
            (u32_add head 1)
            tail
            ret
            sqe
            (queue_work_lap create m.ring.wq.wq (sqe_work sqe)))
  punt-Core create head tail ret sqe at_lap differ found =
      let (rest, split, sq) = issued head tail ret sqe at_lap differ found in
      let job = sqe_work sqe in
      let step : Step n 1 m.ring.wq
          (after_lap m.ring.wq 0 job (queue_work_lap create m.ring.wq.wq job)) =
        submit create 0 job (omega arith) (c.caller ∙ ap queuer_of at_lap) in
      punted-Core m.ring.wq.wq (u32_add head 1) tail ret sqe _ rest
        (queue_work_lap-Lap create m.ring.wq.wq job) (Step-Inv c.wq step) sq
        λ key. omega (arith, ap (tally (of_sqe key)) split, ap (waiting key) at_lap)

  pub punt_again-Core :
      (create : ℕ → ℤ) (head tail ret : ℕ) (sqe : GwRingSqe P)
      → m.submitter ≡ queueing head tail ret sqe
      → Core sq_bits cq_bits n
          (punted m head tail ret sqe (queue_work_wake create m.ring.wq.wq (sqe_work sqe)))
  unfolding queue_work_wake
  punt_again-Core create head tail ret sqe asleep =
      let job = sqe_work sqe in
      let woken = roused m.ring.wq.wq in
      let step : Step n 1 m.ring.wq
          (after_lap m.ring.wq 0 job (queue_work_wake create m.ring.wq.wq job)) =
        retry create 0 job (omega arith) (c.caller ∙ ap queuer_of asleep) in
      punted-Core woken head tail ret sqe _ c.queue (queue_work_lap-Lap create woken job)
        (Step-Inv c.wq step)
        (record { submissions = rw asleep at c.sq.submissions; span = rw asleep at c.sq.span })
        λ key. omega (arith, ap (waiting key) asleep)

  pub submitted-Core :
      (head tail ret : ℕ)
      → m.submitter ≡ issuing head tail ret
      → (head == tail) ≡ true
      → Core sq_bits cq_bits n
          (record m { ring = record m.ring { sq_head = head }; submitter = resting })
  submitted-Core head tail ret at_lap over = record {
    queue = c.queue;
    sq = record { submissions = rw at_lap at c.sq.submissions; span = refl };
    cq = c.cq;
    wq = c.wq;
    caller = c.caller ∙ ap queuer_of at_lap;
    books = λ key. omega (arith, c.books key, ap (waiting key) at_lap);
  }
