-- ===== src/Ring/System/Paced.antt =====
-- A caller of a ring (core/ring.c) that does not let too many submissions get ahead of the
-- completions it has given back.
use gnuweeb_bot.Common.{
  ℕ, ◌+◌, ◌≤◌, ◌<◌, ◌≡◌, refl, ap, ◌∙◌, Bool, true, false, Option, none, some, ◌++◌, ◌==◌, arith,
  length, length-append, bit_and, get_elem?,
}
use gnuweeb_bot.Common.Int.{ℤ, pos}
use gnuweeb_bot.Common.Word.{u32_mod}
use gnuweeb_bot.Common.Family.{total, total-assign, total-zero}
use gnuweeb_bot.Ring.{GwRingSqe, nop, tg_api_call, tg_module_handle, other}
use gnuweeb_bot.Ring.Complete.{post_cqe}
use gnuweeb_bot.Ring.Slots.{post_cqe-Completed}
use gnuweeb_bot.Ring.Submit.{Handlers}
use gnuweeb_bot.Ring.System
use gnuweeb_bot.Ring.System.{issuing, Machine, exec_result, posting, RingStep, RingReach}
use gnuweeb_bot.Ring.System.Books.{tally, tally-append, tally-all, of_sqe, of_work, of_cqe, in_call}
use gnuweeb_bot.Ring.System.Inv.{Core}
use gnuweeb_bot.Ring.System.Submits.{issued}
use gnuweeb_bot.Ring.System.Runs.{RingStep-Core}
use gnuweeb_bot.Ring.System.Kinds.{unknown_op, Kinds, RingStep-Kinds}

-- The submissions whose completions have not been given back do not outnumber the completions that
-- the ring has room for, and the counters have not wrapped.
pub record Within {P E : Type 0} (m : Machine P E) : Type 0 where
  pub outstanding : length m.prepared ≤ length m.seen + (m.ring.cq_mask + 1)
  pub unwrapped : length m.prepared < u32_mod

-- A run whose every step starts within these limits.
pub data PacedRun {P E : Type 0} (handlers : Handlers P E) (n : ℕ) (start : Machine P E)
    : Machine P E → Type 0 where
  here : PacedRun handlers n start start
  next :
      {m m' : Machine P E}
      → PacedRun handlers n start m
      → Within m
      → RingStep handlers n m m'
      → PacedRun handlers n start m'

pub PacedRun-RingReach :
    {P E : Type 0} {handlers : Handlers P E} {n : ℕ} {start m : Machine P E}
    → PacedRun handlers n start m
    → RingReach handlers n start m
PacedRun-RingReach here = System.here
PacedRun-RingReach (next r w step) = System.next (PacedRun-RingReach r) step

every : ℕ → ℕ → Bool
every op user_data = true

module _ {P E : Type 0} {sq_bits cq_bits n : ℕ} {m : Machine P E} (c : Core sq_bits cq_bits n m)
    (w : Within m) where
  -- A submission that is on its way finds room for its completion.
  has_room :
      (sqe : GwRingSqe P) (res : ℤ)
      → length m.posted + 1 ≤ length m.prepared
      → (post_cqe m.ring sqe res).0 ≡ true
  has_room sqe res fewer =
      let shared = c.cq.order in
      let posts = (post_cqe-Completed m.ring cq_bits c.cq.cqs sqe res c.cq.completions).0 in
      ground (
        arith,
        ap length shared,
        length-append m.seen c.cq.cqs,
        c.cq.counted,
        w.outstanding,
        w.unwrapped,
      )

  -- The submissions on their way and those completed have been filled.
  room_left :
      tally (of_sqe every) c.queue + total (in_call every) n m.call + length m.posted
      ≤ length m.prepared
  unfolding every
  room_left =
      let s = c.wq.stored in
      omega (
        arith,
        c.books every,
        ap (tally (of_work every)) s.order,
        tally-append (of_work every) m.ring.wq.taken (s.dropped ++ s.pending),
        tally-all (of_sqe every) m.prepared (λ sqe. refl),
        tally-all (of_cqe every) m.posted (λ cqe. refl),
      )

  pub issue_has_room :
      (head tail ret d : ℕ)
      → m.submitter ≡ issuing head tail ret
      → (head == tail) ≡ false
      → get_elem? m.ring.sqes (bit_and head m.ring.sq_mask) ≡ some (nop d)
      → (post_cqe m.ring (nop d) (pos 0)).0 ≡ true
  unfolding every
  issue_has_room head tail ret d at_lap differ found =
      let (rest, split, sq) = issued c head tail ret (nop d) at_lap differ found in
      has_room (nop d) (pos 0) (omega (arith, room_left, ap (tally (of_sqe every)) split))

  pub exec_has_room :
      (i : ℕ) (sqe : GwRingSqe P) (res : ℤ)
      → i < n
      → m.call i ≡ some sqe
      → (post_cqe m.ring sqe res).0 ≡ true
  unfolding every
  exec_has_room i sqe res inside runs = has_room sqe res (
      omega (
        arith,
        room_left,
        total-assign (in_call every) n m.call i none inside,
        ap (in_call every) runs,
      ))

module _ {P E : Type 0} (handlers : Handlers P E) where
  -- A known operation has a result.
  known-result :
      (sqe : GwRingSqe P) (world : E)
      → of_sqe unknown_op sqe ≡ false
      → (res : ℤ) × ((exec_result handlers sqe world).0 ≡ some res)
  known-result (nop d) world e = (_, refl)
  known-result (tg_api_call d call) world e = (_, refl)
  known-result (tg_module_handle d handle) world e = (_, refl)
  known-result (other k d) world e = absurd (ground arith)

  posting-keeps :
      (m : Machine P E) (sqe : GwRingSqe P) (result : Option ℤ)
      → ((res : ℤ) × (result ≡ some res))
      → ((res : ℤ) → (post_cqe m.ring sqe res).0 ≡ true)
      → (posting m sqe result).lost ≡ m.lost
  posting-keeps m sqe none (res, e) room = absurd (cc)
  posting-keeps m sqe (some res) e room = rw (room res) refl

module _ {P E : Type 0} {handlers : Handlers P E} {sq_bits cq_bits n : ℕ} {m : Machine P E}
    (c : Core sq_bits cq_bits n m) (k : Kinds n m) (w : Within m) where
  step-keeps : {m' : Machine P E} → RingStep handlers n m m' → m'.lost ≡ m.lost
  step-keeps (System.issue_nop head tail ret d at_lap differ found) =
      rw (issue_has_room c w head tail ret d at_lap differ found) refl
  step-keeps (System.exec i sqe inside runs) =
      let unknown = total-zero (in_call unknown_op) n m.call i k.calls inside in
      let known : of_sqe unknown_op sqe ≡ false = ground (arith, ap (in_call unknown_op) runs) in
      posting-keeps handlers m sqe _ (known-result handlers sqe m.world known)
        (λ res. exec_has_room c w i sqe res inside runs)
  step-keeps _ = refl

module _ {P E : Type 0} {handlers : Handlers P E} {sq_bits cq_bits n : ℕ}
    {start : Machine P E} where
  pub PacedRun-Core :
      {m : Machine P E}
      → Core sq_bits cq_bits n start
      → Kinds n start
      → PacedRun handlers n start m
      → Core sq_bits cq_bits n m × Kinds n m
  PacedRun-Core c k here = (c, k)
  PacedRun-Core c k (next r w step) =
      let (c', k') = PacedRun-Core c k r in (RingStep-Core c' step, RingStep-Kinds k' c' step)

  -- From a good start with only known operations in its work queue, in every order of steps: while
  -- the caller keeps to the limits, no submission goes without a completion for lack of room.
  pub paced_loses_none :
      {m : Machine P E}
      → Core sq_bits cq_bits n start
      → Kinds n start
      → PacedRun handlers n start m
      → m.lost ≡ start.lost
  paced_loses_none c k here = refl
  paced_loses_none c k (next r w step) =
      let (c', k') = PacedRun-Core c k r in step-keeps c' k' w step ∙ paced_loses_none c k r
