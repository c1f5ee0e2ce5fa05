-- ===== src/Ring/Stop.antt =====
-- gw_ring_destroy (core/ring.c) and who meets a stopped ring; and the ring that is too large to post.
use native.Mathlib.Nat.{pow-le-pow_right}
use gnuweeb_bot.Common.{ℕ, ◌^◌, ◌≤◌, ◌<◌, ◌≡◌, refl, ap, ◌∙◌, false, some, List, arith, dec_lt}
use gnuweeb_bot.Common.Int.{ℤ, pos}
use gnuweeb_bot.Common.Word.{u32_add, u32_sub, u32_mul}
use gnuweeb_bot.RoundUp.Limits.{RoundsUp, round_up_least}
use gnuweeb_bot.Workqueue.{Workqueue}
use gnuweeb_bot.Workqueue.Alloc.Start.{alloc_workqueue-Inv}
use gnuweeb_bot.Ring.{GwRingSqe, nop}
use gnuweeb_bot.Ring.Complete.{post_cqe}
use gnuweeb_bot.Ring.Init.{
  IoRing, RingEnv, PartEvent, gw_ring_init, fresh_ring, build_parts, with_workqueue,
  gw_ring_wq_attr,
}
use gnuweeb_bot.Ring.Start.{AllBuilt, built, all_built}

module _ {P : Type 0} where
  fresh_ring_full :
      (max : ℕ) (wq : Workqueue (GwRingSqe P)) (sqe : GwRingSqe P) (res : ℤ)
      → u32_mul max 2 ≡ 0
      → (post_cqe (fresh_ring max wq) sqe res).0 ≡ false
  unfolding fresh_ring post_cqe
  fresh_ring_full max wq sqe res e =
      let wraps : u32_add (u32_sub (u32_mul max 2) 1) 1 ≡ 0 = omega arith in rw wraps refl

  -- For a size above `2 ^ 30` and up to `2 ^ 31`, gw_ring_init returns zero where every call
  -- succeeds, with a ring that takes no completion at all: twice its size wraps to 0.
  pub huge_ring_never_posts :
      (env : RingEnv) (size : ℕ) (sqe : GwRingSqe P) (res : ℤ)
      → AllBuilt P env
      → 2 ^ 30 < size
      → size ≤ 2 ^ 31
      → (ring : IoRing P) × (events : List PartEvent) × (gw_ring_init env size
          ≡ some (pos 0, some ring, events))
        × ((post_cqe ring sqe res).0 ≡ false)
  huge_ring_never_posts env size sqe res ok large small =
      let (max, rounds, up) = round_up_least size small in
      let (wq, events, made, inv, manned, free) =
        alloc_workqueue-Inv env.alloc (nop 0) gw_ring_wq_attr 0 ok.queue (omega arith) (omega arith)
          (omega arith) (omega arith) (omega arith) in
      let top : max ≡ 2 ^ 31 = largest size max large up in
      (
        fresh_ring max wq,
        (build_parts env (with_workqueue max (pos 0, some wq, events))).2,
        built env size max (pos 0, some wq, events) rounds made
            ∙ ap some (all_built env max wq events ok),
        fresh_ring_full max wq sqe res (omega arith),
      )
    where
      largest : (n p : ℕ) → 2 ^ 30 < n → RoundsUp n p → p ≡ 2 ^ 31
      largest n p above r = elim (dec_lt r.bits 31) [
        | yes few ↦ absurd (
            omega (
              arith,
              r.power,
              r.covers,
              pow-le-pow_right {n = 2} (omega arith) {i = r.bits} {j = 30} (omega arith),
            ))
        | no many ↦ omega (
          arith,
          r.power,
          r.covers,
          r.small,
          pow-le-pow_right {n = 2} (omega arith) {i = r.bits} {j = 31} r.small,
          pow-le-pow_right {n = 2} (omega arith) {i = 31} {j = r.bits} (omega arith),
        )
      ]
