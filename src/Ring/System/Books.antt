-- ===== src/Ring/System/Books.antt =====
-- The accounts of the submissions of a ring (core/ring.c): in each state, each submission that was
-- filled is in exactly one place.
use gnuweeb_bot.Common.{
  ℕ, ◌+◌, ◌≡◌, refl, Bool, true, Option, none, some, List, [], ◌∷◌, ◌++◌, if◌then◌else◌, arith,
  length,
}
use gnuweeb_bot.Common.Int.{ℤ}
use gnuweeb_bot.Common.Family.{total}
use gnuweeb_bot.Workqueue.{Workqueue, Work, Signal}
use gnuweeb_bot.Workqueue.Worker.{WorkerState, unborn, starting, asleep, finished, running}
use gnuweeb_bot.Workqueue.Grown.{Lap, stops, sleeps, accepts}
use gnuweeb_bot.Workqueue.System.{log_accepted, log_taken}
use gnuweeb_bot.Ring.Pool.{sqe_work}
use gnuweeb_bot.Ring.{GwRingSqe, GwRingCqe, sqe_op, sqe_user_data}
use gnuweeb_bot.Ring.System.{Submitter, queueing, Machine, after_punt, log_refused, starts_call}

-- How many items of a list pass a test.
abbrev pub tally {ℓ} : {A : Type ℓ} → (A → Bool) → List A → ℕ
tally test [] = 0
tally test (x ∷ xs) = (if test x then 1 else 0) + tally test xs

pub tally-append {ℓ} :
    {A : Type ℓ} (test : A → Bool) (xs ys : List A)
    → tally test (xs ++ ys) ≡ tally test xs + tally test ys
tally-append test [] ys = omega arith
tally-append test (x ∷ xs) ys = omega (arith, tally-append test xs ys)

-- One more item, at the end.
pub tally-snoc {ℓ} :
    {A : Type ℓ} (test : A → Bool) (xs : List A) (x : A)
    → tally test (xs ++ x ∷ []) ≡ tally test xs + (if test x then 1 else 0)
tally-snoc test xs x = omega (arith, tally-append test xs (x ∷ []))

pub tally-all {ℓ} :
    {A : Type ℓ} (test : A → Bool) (xs : List A)
    → ((x : A) → test x ≡ true)
    → tally test xs ≡ length xs
tally-all test [] h = refl
tally-all test (x ∷ xs) h = rw (h x) (omega (arith, tally-all test xs h))

-- Tests of a submission, a completion and a work by the `op` and the `user_data`.
module _ {P : Type 0} (key : ℕ → ℕ → Bool) where
  abbrev pub of_sqe : GwRingSqe P → Bool
  of_sqe sqe = key (sqe_op sqe) (sqe_user_data sqe)

  abbrev pub of_work : Work (GwRingSqe P) → Bool
  of_work work = of_sqe work.arg

  -- The one that waits in queue_work, and the one that a worker runs.
  abbrev pub waiting : Submitter P → ℕ
  waiting (queueing head tail ret sqe) = if of_sqe sqe then 1 else 0
  waiting _ = 0

  abbrev pub in_call : Option (GwRingSqe P) → ℕ
  in_call none = 0
  in_call (some sqe) = if of_sqe sqe then 1 else 0

abbrev pub of_cqe : (ℕ → ℕ → Bool) → GwRingCqe → Bool
of_cqe key cqe = key cqe.op cqe.user_data

-- `queue` is what lies between the counters of the ring. The works accepted are more than those
-- taken by the ones that the work queue still holds or has dropped.
abbrev pub Books : {P E : Type 0} → ℕ → Machine P E → List (GwRingSqe P) → Type 0
Books n m queue =
    (key : ℕ → ℕ → Bool)
    → tally (of_sqe key) m.prepared + tally (of_work key) m.ring.wq.taken
      ≡ tally (of_sqe key) queue
        + waiting key m.submitter
        + tally (of_sqe key) m.refused
        + tally (of_work key) m.ring.wq.accepted
        + total (in_call key) n m.call
        + tally (of_sqe key) m.lost
        + tally (of_cqe key) m.posted

module _ {P : Type 0} (key : ℕ → ℕ → Bool) where
  -- A worker that takes a work comes to run its callback.
  pub taken-call :
      (state : WorkerState (GwRingSqe P)) (works : List (Work (GwRingSqe P)))
      → tally (of_work key) (log_taken state works)
        ≡ tally (of_work key) works + in_call key (starts_call state)
  taken-call unborn works = omega arith
  taken-call starting works = omega arith
  taken-call asleep works = omega arith
  taken-call finished works = omega arith
  taken-call (running work) works = tally-snoc (of_work key) works work

  -- A lap of queue_work for a submission puts it in one place.
  pub punt-books :
      (wq : Workqueue (GwRingSqe P)) (head tail ret : ℕ) (sqe : GwRingSqe P)
      (out : Option ℤ × Workqueue (GwRingSqe P) × List Signal)
      (accepted : List (Work (GwRingSqe P))) (refused : List (GwRingSqe P))
      → Lap wq (sqe_work sqe) out
      → waiting key (after_punt out.0 head tail ret sqe)
          + tally (of_sqe key) (log_refused out.0 sqe refused)
          + tally (of_work key) (log_accepted out.0 (sqe_work sqe) accepted)
        ≡ tally (of_sqe key) refused
          + tally (of_work key) accepted
          + (if of_sqe key sqe then 1 else 0)
  punt-books wq head tail ret sqe out accepted refused (stops _ e) =
      rw e (omega (arith, tally-snoc (of_sqe key) refused sqe))
  punt-books wq head tail ret sqe out accepted refused (sleeps _ _ e) = rw e (omega arith)
  punt-books wq head tail ret sqe out accepted refused (accepts workers signals _ _ _ e) =
      rw e (omega (arith, tally-snoc (of_work key) accepted (sqe_work sqe)))
