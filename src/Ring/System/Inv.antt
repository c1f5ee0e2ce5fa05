-- ===== src/Ring/System/Inv.antt =====
-- The invariant of a ring with its work queue (core/ring.c), kept by the steps of the system.
use gnuweeb_bot.Common.{
  ℕ, ◌+◌, ◌≡◌, refl, ap, Bool, true, false, Option, none, some, List, [], ◌∷◌, ◌++◌, arith,
  Bool-cases, inl, inr, if◌then◌else◌,
}
use mathlib.Core.Path.{subst}
use gnuweeb_bot.Common.Int.{ℤ}
use gnuweeb_bot.Common.Circular.{Circular}
use gnuweeb_bot.Workqueue.System.{QueuerState, idle, queued, System}
use gnuweeb_bot.Workqueue.System.Inv.{Inv}
use gnuweeb_bot.Ring.{GwRing, GwRingSqe}
use gnuweeb_bot.Ring.Complete.{post_cqe, cqe_of}
use gnuweeb_bot.Ring.Pool.{sqe_work}
use gnuweeb_bot.Ring.System.{Submitter, resting, issuing, queueing, Machine, posting}
use gnuweeb_bot.Ring.System.Books.{tally, tally-snoc, of_sqe, of_cqe, Books}
use gnuweeb_bot.Ring.System.Read.{CqSide, post-CqSide}

module _ {P : Type 0} where
  -- The counters of the submissions that are still to be issued: inside gw_ring_submit its own.
  abbrev pub head_of : Submitter P → ℕ → ℕ
  head_of resting sq_head = sq_head
  head_of (issuing head tail ret) sq_head = head
  head_of (queueing head tail ret sqe) sq_head = head

  abbrev pub tail_of : Submitter P → ℕ → ℕ
  tail_of resting sq_tail = sq_tail
  tail_of (issuing head tail ret) sq_tail = tail
  tail_of (queueing head tail ret sqe) sq_tail = tail

  -- What the submitter is for the work queue.
  abbrev pub queuer_of : Submitter P → QueuerState (GwRingSqe P)
  queuer_of (queueing head tail ret sqe) = queued (sqe_work sqe)
  queuer_of _ = idle

  pub record SqHeld (bits : ℕ) (sqes : List (GwRingSqe P)) (mask sq_head sq_tail : ℕ)
      (submitter : Submitter P) (queue : List (GwRingSqe P)) : Type 0 where
    pub submissions : Circular bits sqes mask (head_of submitter sq_head) sq_tail queue
    pub span : tail_of submitter sq_tail ≡ sq_tail

  abbrev pub SqSide : {W : Type 0} → ℕ → GwRing P W → Submitter P → List (GwRingSqe P) → Type 0
  SqSide bits ring submitter queue =
      SqHeld bits ring.sqes ring.sq_mask ring.sq_head ring.sq_tail submitter queue

pub record Core {P E : Type 0} (sq_bits cq_bits n : ℕ) (m : Machine P E) : Type 0 where
  pub queue : List (GwRingSqe P)
  pub sq : SqSide sq_bits m.ring m.submitter queue
  pub cq : CqSide cq_bits m.ring m.posted m.seen m.visit
  pub wq : Inv n 1 m.ring.wq
  pub caller : m.ring.wq.queuer 0 ≡ queuer_of m.submitter
  pub books : Books n m queue

-- A completion that is posted changes two fields of the ring.
pub post_same :
    {P W : Type 0} (ring : GwRing P W) (sqe : GwRingSqe P) (res : ℤ)
    → (post_cqe ring sqe res).2 ≡ record ring {
      cqes = (post_cqe ring sqe res).2.cqes;
      cq_tail = (post_cqe ring sqe res).2.cq_tail;
    }
unfolding post_cqe
post_same ring sqe res = ground arith

post_full :
    {P W : Type 0} (ring : GwRing P W) (sqe : GwRingSqe P) (res : ℤ)
    → (post_cqe ring sqe res).0 ≡ false
    → (post_cqe ring sqe res).2 ≡ ring
unfolding post_cqe
post_full ring sqe res full = ground arith

module _ {P E : Type 0} where
  -- A submission that is over has a completion, or it is lost.
  pub data Posted (m : Machine P E) (sqe : GwRingSqe P) (out : Machine P E) : Type 0 where
    posts :
        (res : ℤ)
        → (post_cqe m.ring sqe res).0 ≡ true
        → out ≡ record m {
          ring = record m.ring {
            cqes = (post_cqe m.ring sqe res).2.cqes;
            cq_tail = (post_cqe m.ring sqe res).2.cq_tail;
          };
          posted = m.posted ++ cqe_of sqe res ∷ [];
        }
        → Posted m sqe out
    loses : out ≡ record m { lost = m.lost ++ sqe ∷ [] } → Posted m sqe out

  pub posting-Posted :
      (m : Machine P E) (sqe : GwRingSqe P) (result : Option ℤ)
      → Posted m sqe (posting m sqe result)
  posting-Posted m sqe none = loses refl
  posting-Posted m sqe (some res) = elim (Bool-cases (post_cqe m.ring sqe res).0) [
    | inl ok ↦ posts res ok (
        rw ok (
          ap
            (λ (r : GwRing P (System (GwRingSqe P))). record m {
              ring = r;
              posted = m.posted ++ cqe_of sqe res ∷ [];
            })
            (post_same m.ring sqe res)))
    | inr full ↦ loses (
        rw full (
          ap
            (λ (r : GwRing P (System (GwRingSqe P))). record m {
              ring = r;
              lost = m.lost ++ sqe ∷ [];
            })
            (post_full m.ring sqe res full)))
  ]

  -- Its books: in one place, and of the same operation and `user_data`.
  pub posted-books :
      (m out : Machine P E) (sqe : GwRingSqe P) (key : ℕ → ℕ → Bool)
      → Posted m sqe out
      → tally (of_sqe key) out.lost + tally (of_cqe key) out.posted
        ≡ tally (of_sqe key) m.lost
          + tally (of_cqe key) m.posted
          + (if of_sqe key sqe then 1 else 0)
  posted-books m out sqe key (posts res ok e) =
      rw e (omega (arith, tally-snoc (of_cqe key) m.posted (cqe_of sqe res)))
  posted-books m out sqe key (loses e) = rw e (omega (arith, tally-snoc (of_sqe key) m.lost sqe))

  pub posted-CqSide :
      {bits : ℕ} (m out : Machine P E) (sqe : GwRingSqe P)
      → Posted m sqe out
      → CqSide bits m.ring m.posted m.seen m.visit
      → CqSide bits
          (record m.ring { cqes = out.ring.cqes; cq_tail = out.ring.cq_tail })
          out.posted
          m.seen
          m.visit
  posted-CqSide {bits} m out sqe (posts res ok e) c = rw e (
      subst (λ r. CqSide bits r (m.posted ++ cqe_of sqe res ∷ []) m.seen m.visit)
        (post_same m.ring sqe res) (post-CqSide m.ring sqe res ok c))
  posted-CqSide m out sqe (loses e) c = rw e c

  -- Nothing else changes.
  pub posted-same :
      (m out : Machine P E) (sqe : GwRingSqe P)
      → Posted m sqe out
      → out ≡ record m {
        ring = record m.ring { cqes = out.ring.cqes; cq_tail = out.ring.cq_tail };
        posted = out.posted;
        lost = out.lost;
      }
  posted-same m out sqe (posts res ok e) = rw e refl
  posted-same m out sqe (loses e) = rw e refl
