-- ===== src/Ring/Start.antt =====
-- How gw_ring_init (core/ring.c) ends: with everything given back, or with two empty rings.
use native.Mathlib.Nat.{pow-suc, pow-le-pow_right}
use mathlib.Core.List.{reverse, reverse-cons, map-append}
use gnuweeb_bot.Common.{
  ℕ, suc, ◌+◌, ◌*◌, ◌^◌, ◌≤◌, ◌<◌, ◌≡◌, refl, ap, ◌∙◌, true, false, Option, none, some, List, [],
  ◌∷◌, ◌++◌, map, arith, inl, inr, append_assoc, Bool-cases,
}
use gnuweeb_bot.Common.Int.{ℤ, pos, is_zero}
use gnuweeb_bot.Common.Word.{u32_mod, u32_add, u32_sub, u32_mul}
use gnuweeb_bot.Common.Circular.{fresh-Circular}
use gnuweeb_bot.RoundUp.{round_up}
use gnuweeb_bot.RoundUp.Limits.{RoundsUp, round_up_least, exponent_below}
use gnuweeb_bot.Workqueue.{Workqueue}
use gnuweeb_bot.Workqueue.Alloc.{Outcome, Event, alloc_workqueue}
use gnuweeb_bot.Workqueue.Alloc.Unwind.{Settles, alloc_workqueue-Settles}
use gnuweeb_bot.Workqueue.Alloc.Start.{start, AllSucceed, alloc_workqueue-Inv}
use gnuweeb_bot.Workqueue.System.Inv.{Inv}
use gnuweeb_bot.Workqueue.System.Manned.{Manned}
use gnuweeb_bot.Ring.{GwRingSqe, nop}
use gnuweeb_bot.Ring.Init.{
  Part, sqes_memory, cqes_memory, sq_lock, cq_lock, wait_cqe_cond, work_queue, PartEvent, acquired,
  released, RingEnv, gw_ring_wq_attr, out_free_sqes, out_free_cqes, out_free_sq_lock,
  out_free_cq_lock, out_free_wait_cqe_cond, calloc_status, IoRing, Built, fresh_ring, build_step,
  with_workqueue, build_parts, build_ring, gw_ring_init,
}
use gnuweeb_bot.Ring.Slots.{Submitted, Completed}

-- How a part of the ladder ends, whose caller's label is `label`.
abbrev pub Settled : {P : Type 0} → List PartEvent → Built P → Type 0
Settled label (ret, some ring, events) =
    (held : List Part) × (is_zero ret ≡ true) × (events ≡ map acquired held)
Settled label (ret, none, events) =
    (held : List Part) × (is_zero ret ≡ false)
    × (events ≡ map acquired held ++ (map released (reverse held) ++ label))

-- Every call that gw_ring_init makes succeeds.
pub record AllBuilt (P : Type 0) (env : RingEnv) : Type 0 where
  pub arrays : (env.calloc_sqes ≡ true) × (env.calloc_cqes ≡ true)
  pub locks : (env.init_sq_lock ≡ pos 0) × (env.init_cq_lock ≡ pos 0)
  pub cond : env.init_wait_cqe_cond ≡ pos 0
  pub queue : AllSucceed {A = GwRingSqe P} env.alloc (nop 0)

module _ {P : Type 0} where
  build_step-Settled :
      (status : ℤ) (part : Part) (label : List PartEvent) (rest : Built P)
      → Settled (released part ∷ label) rest
      → Settled label (build_step status part label rest)
  build_step-Settled status part label (ret, some ring, events) (held, e, h) =
      elim (Bool-cases (is_zero status)) [
        | inl ok ↦ rw ok (part ∷ held, e, ap (λ (l : List PartEvent). acquired part ∷ l) h)
        | inr failed ↦ rw failed ([], failed, refl)
      ]
  build_step-Settled status part label (ret, none, events) (held, e, h) =
      elim (Bool-cases (is_zero status)) [
        | inl ok ↦ rw ok (part ∷ held, e, rw (h, reverse-cons) (simp (map-append, append_assoc)))
        | inr failed ↦ rw failed ([], failed, refl)
      ]

  with_workqueue-Settled :
      (max : ℕ) (out : Outcome (GwRingSqe P))
      → Settles [] out
      → Settled out_free_wait_cqe_cond (with_workqueue max out)
  unfolding with_workqueue
  with_workqueue-Settled max (ret, some wq, events) (held, e, h) =
      rw e (work_queue ∷ [], refl, refl)
  with_workqueue-Settled max (ret, none, events) (held, e, h) = ([], e, refl)

  build_parts-Settled :
      (env : RingEnv) (rest : Built P)
      → Settled out_free_wait_cqe_cond rest
      → Settled [] (build_parts env rest)
  unfolding build_parts
  build_parts-Settled env rest h =
      build_step-Settled (calloc_status env.calloc_sqes) sqes_memory [] _ (
        build_step-Settled (calloc_status env.calloc_cqes) cqes_memory out_free_sqes _ (
          build_step-Settled env.init_sq_lock sq_lock out_free_cqes _ (
            build_step-Settled env.init_cq_lock cq_lock out_free_sq_lock _
              (build_step-Settled env.init_wait_cqe_cond wait_cqe_cond out_free_cq_lock rest h))))

  -- gw_ring_init, once its two loops have ended.
  pub built :
      (env : RingEnv) (size max : ℕ) (made : Outcome (GwRingSqe P))
      → round_up size ≡ some max
      → alloc_workqueue env.alloc (nop 0) gw_ring_wq_attr ≡ some made
      → gw_ring_init env size ≡ some (build_parts env (with_workqueue max made))
  unfolding gw_ring_init build_ring
  built env size max made rounds allocs =
      ap (λ (r : Option ℕ). build_ring env r (alloc_workqueue env.alloc (nop 0) gw_ring_wq_attr))
        rounds
      ∙ ap (λ (a : Option (Outcome (GwRingSqe P))). build_ring env (some max) a) allocs

  -- For a size of at most `2 ^ 31` gw_ring_init returns. A zero status comes with a ring, and
  -- everything acquired is held; any other status comes without one, and everything acquired has
  -- been released, the last first.
  pub gw_ring_init-Settled :
      (env : RingEnv) (size : ℕ)
      → size ≤ 2 ^ 31
      → (out : Built P) × (gw_ring_init env size ≡ some out) × Settled [] out
  gw_ring_init-Settled env size small =
      let (max, rounds, up) = round_up_least size small in
      let (made, allocs, settles) =
        alloc_workqueue-Settles env.alloc (nop 0) gw_ring_wq_attr (omega arith) (omega arith) in
      (
        build_parts env (with_workqueue max made),
        built env size max made rounds allocs,
        build_parts-Settled env (with_workqueue max made) (with_workqueue-Settled max made settles),
      )

  -- The two arrays of a fresh ring are empty, and that of the completions is twice as long.
  fresh_ring-empty :
      (max bits : ℕ) (wq : Workqueue (GwRingSqe P))
      → 2 ≤ max
      → bits ≤ 30
      → max ≡ 2 ^ bits
      → Submitted bits (fresh_ring max wq) [] × Completed (suc bits) (fresh_ring max wq) []
  unfolding fresh_ring
  fresh_ring-empty max bits wq two small power =
      let bound = pow-le-pow_right {n = 2} (omega arith) {i = bits} {j = 30} small in
      let sq : u32_add (u32_sub max 1) 1 ≡ u32_sub max 1 + 1 = omega (arith, bound) in
      let cq : u32_add (u32_sub (u32_mul max 2) 1) 1 ≡ u32_sub (u32_mul max 2) 1 + 1 =
        omega (arith, bound) in
      (
        rw sq (fresh-Circular bits (u32_sub max 1) (nop 0) (omega arith) (omega (arith, bound))),
        rw cq (
            fresh-Circular (suc bits) (u32_sub (u32_mul max 2) 1)
              (record { op = 0; res = pos 0; flags = 0; user_data = 0 }) (omega arith)
              (omega (arith, bound, pow-suc 2 bits))),
      )

  -- What gw_ring_init promises: two empty arrays, of a power of two that is not below the size, and
  -- of twice that; and a work queue in good order.
  pub record Opened (q size : ℕ) (ring : IoRing P) : Type 0 where
    pub bits : ℕ
    pub submitted : Submitted bits ring []
    pub completed : Completed (suc bits) ring []
    pub covers : size ≤ ring.sq_mask + 1
    pub twice : ring.cq_mask + 1 ≡ 2 * (ring.sq_mask + 1)
    pub going : ring.should_stop ≡ false
    pub unread : ring.cq_head ≡ 0
    pub queue : Inv 1024 q (start ring.wq)
    pub manned : Manned 1024 (start ring.wq)
    pub unblocked : ring.wq.queue_is_blocked ≡ false

  fresh_ring-Opened :
      (q size max : ℕ) (wq : Workqueue (GwRingSqe P))
      → size ≤ 2 ^ 30
      → RoundsUp size max
      → Inv 1024 q (start wq)
      → Manned 1024 (start wq)
      → wq.queue_is_blocked ≡ false
      → Opened q size (fresh_ring max wq)
  unfolding fresh_ring
  fresh_ring-Opened q size max wq small r inv manned free =
      let below : 2 ^ r.bits < 2 ^ 31 = elim r.least [
        | inl two ↦ omega (arith, r.power)
        | inr half ↦ omega (arith, r.power)
      ] in
      let bits = exponent_below r.bits below in
      let bound = pow-le-pow_right {n = 2} (omega arith) {i = r.bits} {j = 30} bits in
      let (sq, cq) = fresh_ring-empty max r.bits wq r.two_le bits r.power in
      record {
        bits = r.bits;
        submitted = sq;
        completed = cq;
        covers = omega (arith, r.covers, r.two_le);
        twice = omega (arith, r.two_le, r.power, bound);
        going = refl;
        unread = refl;
        queue = inv;
        manned = manned;
        unblocked = free;
      }

  pub all_built :
      (env : RingEnv) (max : ℕ) (wq : Workqueue (GwRingSqe P)) (events : List Event)
      → AllBuilt P env
      → build_parts env (with_workqueue max (pos 0, some wq, events)) ≡ (
        pos 0,
        some (fresh_ring max wq),
        (build_parts env (with_workqueue max (pos 0, some wq, events))).2,
      )
  unfolding build_parts with_workqueue
  all_built env max wq events ok =
      rw
        (ok.arrays.0, ok.arrays.1, ap is_zero ok.locks.0, ap is_zero ok.locks.1, ap is_zero ok.cond)

  -- For a size of at most `2 ^ 30`, where every call succeeds, gw_ring_init returns zero with a ring
  -- as promised, ready for any number of callers below `2 ^ 32 - 1`.
  pub gw_ring_init-Opened :
      (env : RingEnv) (size q : ℕ)
      → AllBuilt P env
      → size ≤ 2 ^ 30
      → q + 1 < u32_mod
      → (ring : IoRing P) × (events : List PartEvent) × (gw_ring_init env size
          ≡ some (pos 0, some ring, events))
        × Opened q size ring
  gw_ring_init-Opened env size q ok small few =
      let (max, rounds, up) = round_up_least size (omega arith) in
      let (wq, events, made, inv, manned, free) =
        alloc_workqueue-Inv env.alloc (nop 0) gw_ring_wq_attr q ok.queue (omega arith) (omega arith)
          (omega arith) (omega arith) few in
      (
        fresh_ring max wq,
        (build_parts env (with_workqueue max (pos 0, some wq, events))).2,
        built env size max (pos 0, some wq, events) rounds made
            ∙ ap some (all_built env max wq events ok),
        fresh_ring-Opened q size max wq small up inv manned free,
      )
