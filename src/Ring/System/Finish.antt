-- ===== src/Ring/System/Finish.antt =====
-- What is left to do in a ring shrinks with every step that advances (core/ring.c).
use gnuweeb_bot.Common.{
  ℕ, ◌+◌, ◌*◌, ◌≤◌, ◌<◌, ◌≡◌, refl, sym, ap, ◌∙◌, false, Option, none, some, List, arith, ◌==◌,
  length, bit_and, get_elem?, if◌then◌else◌,
}
use mathlib.Core.Path.{subst}
use gnuweeb_bot.Common.Int.{ℤ, pos}
use gnuweeb_bot.Common.Word.{u32_add, u32_sub}
use gnuweeb_bot.Common.Family.{assign, total, total-assign}
use gnuweeb_bot.Common.Circular.{Circular, size-le}
use gnuweeb_bot.Workqueue.{Workqueue, Work, Signal}
use gnuweeb_bot.Workqueue.Submit.{queue_work_wake}
use gnuweeb_bot.Workqueue.Grown.{Lap, stops, sleeps, accepts, queue_work_lap-Lap}
use gnuweeb_bot.Workqueue.Moves.{Move, worker_step-Move}
use gnuweeb_bot.Workqueue.Worker.{WorkerState, running}
use gnuweeb_bot.Workqueue.System.Count.{room}
use gnuweeb_bot.Workqueue.System.Inv.{StoredIn}
use gnuweeb_bot.Ring.{GwRingSqe, nop}
use gnuweeb_bot.Ring.Complete.{post_cqe}
use gnuweeb_bot.Ring.Submit.{Handlers}
use gnuweeb_bot.Ring.Pool.{sqe_work}
use gnuweeb_bot.Ring.System
use gnuweeb_bot.Ring.System.{
  Submitter, resting, issuing, queueing, Machine, RingStep, after_punt, posting, exec_result,
  punted, starts_call,
}
use gnuweeb_bot.Ring.System.Inv.{head_of, Core, Posted, posting-Posted, posted-same}
use gnuweeb_bot.Ring.System.Submits.{roused, issued}
use gnuweeb_bot.Ring.System.Progress.{Advances}

module _ {P : Type 0} where
  abbrev pub stage : Submitter P → ℕ
  stage resting = 0
  stage (issuing head tail ret) = 1
  stage (queueing head tail ret sqe) = 4

  abbrev pub busy : Option (GwRingSqe P) → ℕ
  busy none = 0
  busy (some sqe) = 1

module _ {P E : Type 0} where
  -- What a machine has left to do: 4 for each submission to be issued, 3 for one asleep in
  -- queue_work, 2 for each that is pending, 1 for each that runs, and 1 for a call of
  -- gw_ring_submit.
  abbrev pub work_left : ℕ → Machine P E → ℕ
  work_left n m =
      4 * u32_sub m.ring.sq_tail (head_of m.submitter m.ring.sq_head)
      + stage m.submitter
      + 2 * u32_sub m.ring.wq.wq.tail m.ring.wq.wq.head
      + total busy n m.call

span-length {ℓ} :
    {A : Type ℓ} {bits mask head tail : ℕ} {array xs : List A}
    → Circular bits array mask head tail xs
    → u32_sub tail head ≡ length xs
span-length c = omega (arith, c.tail_at, c.head_fits, c.room, size-le c)

module _ {P : Type 0} where
  -- A lap of queue_work leaves one work more, or a caller asleep, or neither.
  queued_left :
      (wq : Workqueue (GwRingSqe P)) (head tail ret : ℕ) (sqe : GwRingSqe P)
      (out : Option ℤ × Workqueue (GwRingSqe P) × List Signal)
      {accepted taken : List (Work (GwRingSqe P))} {cleared : List _}
      → Lap wq (sqe_work sqe) out
      → StoredIn wq accepted taken cleared
      → stage (after_punt out.0 head tail ret sqe) + 2 * u32_sub out.1.tail out.1.head
        ≤ 4 + 2 * u32_sub wq.tail wq.head
  queued_left wq head tail ret sqe out (stops _ e) v = rw e (omega arith)
  queued_left wq head tail ret sqe out (sleeps _ _ e) v = rw e (omega arith)
  queued_left wq head tail ret sqe out (accepts workers signals _ _ _ e) v =
      rw e (omega (arith, v.ring.tail_at, v.ring.head_fits, v.ring.room, size-le v.ring))

  -- The caller of one that ends is awake.
  awake_left :
      (wq : Workqueue (GwRingSqe P)) (head tail ret : ℕ) (sqe : GwRingSqe P)
      (out : Option ℤ × Workqueue (GwRingSqe P) × List Signal)
      {accepted taken : List (Work (GwRingSqe P))} {cleared : List _}
      → Lap wq (sqe_work sqe) out
      → StoredIn wq accepted taken cleared
      → out.0 ≡ some (pos 0)
      → stage (after_punt out.0 head tail ret sqe) + 2 * u32_sub out.1.tail out.1.head
        ≤ 3 + 2 * u32_sub wq.tail wq.head
  awake_left wq head tail ret sqe out (stops _ e) v done = rw e (omega arith)
  awake_left wq head tail ret sqe out (sleeps _ _ e) v done = absurd (cc)
  awake_left wq head tail ret sqe out (accepts workers signals _ _ _ e) v done =
      rw e (omega (arith, v.ring.tail_at, v.ring.head_fits, v.ring.room, size-le v.ring))

  punt-head :
      (result : Option ℤ) (head tail ret sq_head : ℕ) (sqe : GwRingSqe P)
      → head_of (after_punt result head tail ret sqe) sq_head ≡ head
  punt-head none head tail ret sq_head sqe = refl
  punt-head (some status) head tail ret sq_head sqe = refl

module _ {A : Type 0} where
  -- A worker that takes a work leaves one less.
  take_left :
      (before : WorkerState A) (job : Work A) (wq wq' : Workqueue A)
      {accepted taken : List (Work A)} {cleared : List _}
      → Move before wq (running job) wq'
      → StoredIn wq accepted taken cleared
      → u32_sub wq'.tail wq'.head + 1 ≡ u32_sub wq.tail wq.head
  take_left before job wq wq' move v =
      let (differ, read, at) = move.took in
      let same : wq'.tail ≡ wq.tail = ap (λ (w : Workqueue A). w.tail) move.same in
      rw (at, same) (ground (arith, v.ring.tail_at, v.ring.head_fits, v.ring.room, size-le v.ring))

module _ {P E : Type 0} {sq_bits cq_bits n : ℕ} {m : Machine P E}
    (c : Core sq_bits cq_bits n m) where
  nop_shrinks :
      (head tail ret ret' : ℕ) (sqe : GwRingSqe P) (out : Machine P E)
      → Posted m sqe out
      → m.submitter ≡ issuing head tail ret
      → (head == tail) ≡ false
      → get_elem? m.ring.sqes (bit_and head m.ring.sq_mask) ≡ some sqe
      → work_left n (record out { submitter = issuing (u32_add head 1) tail ret' }) < work_left n m
  nop_shrinks head tail ret ret' sqe out p at_lap differ found =
      let (rest, split, sq) = issued c head tail ret sqe at_lap differ found in
      subst
        (λ o.
          work_left n (record o { submitter = issuing (u32_add head 1) tail ret' }) < work_left n m)
        (sym (posted-same m out sqe p))
        (omega (
          arith,
          span-length c.sq.submissions,
          span-length sq.submissions,
          ap length split,
          ap stage at_lap,
        ))

  exec_shrinks :
      (i : ℕ) (sqe : GwRingSqe P) (out : Machine P E) (world : E)
      → Posted m sqe out
      → i < n
      → m.call i ≡ some sqe
      → work_left n (record out { call = assign m.call i none; world = world }) < work_left n m
  exec_shrinks i sqe out world p inside runs =
      subst
        (λ o. work_left n (record o { call = assign m.call i none; world = world }) < work_left n m)
        (sym (posted-same m out sqe p))
        (omega (arith, total-assign busy n m.call i none inside, ap busy runs))

  punted_shrinks :
      (wq : Workqueue (GwRingSqe P)) (head tail ret : ℕ) (sqe : GwRingSqe P)
      (out : Option ℤ × Workqueue (GwRingSqe P) × List Signal) (rest : List (GwRingSqe P))
      → Lap wq (sqe_work sqe) out
      → StoredIn wq m.ring.wq.accepted m.ring.wq.taken m.ring.wq.cleared
      → u32_sub wq.tail wq.head ≡ u32_sub m.ring.wq.wq.tail m.ring.wq.wq.head
      → u32_sub m.ring.sq_tail head ≡ length rest
      → 4 * length c.queue + stage m.submitter ≡ 4 * length rest + 5
      → work_left n (punted m head tail ret sqe out) < work_left n m
  punted_shrinks wq head tail ret sqe out rest lap v same left before = omega (
    arith,
    queued_left wq head tail ret sqe out lap v,
    same,
    before,
    span-length c.sq.submissions,
    ap (u32_sub m.ring.sq_tail) (punt-head out.0 head tail ret m.ring.sq_head sqe) ∙ left,
  )

module _ {P E : Type 0} {handlers : Handlers P E} {sq_bits cq_bits n : ℕ} {m : Machine P E}
    (c : Core sq_bits cq_bits n m) where
  -- Every step that advances leaves less to do.
  pub advance_shrinks :
      {m' : Machine P E} (step : RingStep handlers n m m')
      → Advances step
      → work_left n m' < work_left n m
  unfolding queue_work_wake
  advance_shrinks (System.refuse head tail ret sqe at_lap differ found unknown) a =
      let (rest, split, sq) = issued c head tail ret sqe at_lap differ found in
      omega (
        arith,
        span-length c.sq.submissions,
        span-length sq.submissions,
        ap length split,
        ap stage at_lap,
      )
  advance_shrinks (System.issue_nop head tail ret d at_lap differ found) a =
      nop_shrinks c head tail ret (if (post_cqe m.ring (nop d) (pos 0)).0 then ret + 1 else ret)
        (nop d) _ (posting-Posted m (nop d) (some (pos 0))) at_lap differ found
  advance_shrinks (System.punt create head tail ret sqe at_lap differ found goes) a =
      let (rest, split, sq) = issued c head tail ret sqe at_lap differ found in
      punted_shrinks c m.ring.wq.wq (u32_add head 1) tail ret sqe _ rest
        (queue_work_lap-Lap create m.ring.wq.wq (sqe_work sqe)) c.wq.stored refl
        (span-length sq.submissions) (omega (arith, ap length split, ap stage at_lap))
  advance_shrinks (System.punt_again create head tail ret sqe asleep) a =
      let wq = roused m.ring.wq.wq in
      let out = queue_work_wake create m.ring.wq.wq (sqe_work sqe) in
      omega (
        arith,
        awake_left wq head tail ret sqe out (queue_work_lap-Lap create wq (sqe_work sqe))
            c.wq.stored a,
        ap stage asleep,
        ap (u32_sub m.ring.sq_tail) (punt-head out.0 head tail ret m.ring.sq_head sqe),
        ap (λ (s : Submitter P). u32_sub m.ring.sq_tail (head_of s m.ring.sq_head)) asleep,
      )
  advance_shrinks (System.submitted head tail ret at_lap over) a = omega (
    arith,
    ap (λ (s : Submitter P). u32_sub m.ring.sq_tail (head_of s m.ring.sq_head)) at_lap,
    ap stage at_lap,
  )
  advance_shrinks (System.work i state wq signals inside free e) (job, runs) =
      let move =
        worker_step-Move (m.ring.wq.worker i) state m.ring.wq.wq wq signals
          (room i inside c.wq.counted) e in
      omega (
        arith,
        take_left (m.ring.wq.worker i) job m.ring.wq.wq wq (rw runs at move) c.wq.stored,
        total-assign busy n m.call i (starts_call state) inside,
        ap busy free,
        ap (λ s. busy (starts_call s)) runs,
      )
  advance_shrinks (System.exec i sqe inside runs) a =
      exec_shrinks c i sqe _ (exec_result handlers sqe m.world).1 (posting-Posted m sqe _) inside
        runs
  advance_shrinks (System.prepare idx sqe _ _) a = absurd a
  advance_shrinks (System.submit _ _) a = absurd a
  advance_shrinks System.wait a = absurd a
  advance_shrinks System.wait_again a = absurd a
  advance_shrinks (System.visit_begin _) a = absurd a
  advance_shrinks (System.visit_next v idx cqe _ _ _) a = absurd a
  advance_shrinks (System.visit_end v k _ _) a = absurd a
  advance_shrinks (System.stop _) a = absurd a
  advance_shrinks (System.destroy calls wq signals _ _ _ _) a = absurd a
