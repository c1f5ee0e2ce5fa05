-- ===== src/Ring/Consume.antt =====
-- What a consumer of completions reads and leaves (include/gw/ring.h).
use gnuweeb_bot.Common.{ℕ, zero, suc, ◌<◌, ◌≤◌, ◌≡◌, refl, some, List, [], ◌∷◌, arith, length}
use mathlib.Core.Path.{subst}
use gnuweeb_bot.Common.Word.{u32_add}
use gnuweeb_bot.Common.Circular.{Circular, pop-Circular, counters_differ}
use gnuweeb_bot.Ring.{GwRing, GwRingCqe}
use gnuweeb_bot.Ring.Complete.{
  gw_ring_cq_advance, gw_ring_load_head_cqe, for_each_cqe_from, for_each_cqe,
}
use gnuweeb_bot.Ring.Slots.{Completed}

-- The list without its first items.
abbrev pub drop {ℓ} : {A : Type ℓ} → ℕ → List A → List A
drop zero xs = xs
drop (suc n) [] = []
drop (suc n) (x ∷ xs) = drop n xs

module _ {P W : Type 0} where
  for_each_cqe_from_lem :
      (fuel : ℕ) (ring : GwRing P W) (bits head : ℕ) (xs : List GwRingCqe)
      → Circular bits ring.cqes ring.cq_mask head ring.cq_tail xs
      → length xs < fuel
      → for_each_cqe_from fuel ring head ≡ some xs
  unfolding for_each_cqe_from gw_ring_load_head_cqe
  for_each_cqe_from_lem zero ring bits head xs c h = absurd (omega arith)
  for_each_cqe_from_lem (suc fuel) ring bits head [] c h =
      rw (for_each_cqe_from, gw_ring_load_head_cqe, counters_differ [] c) refl
  for_each_cqe_from_lem (suc fuel) ring bits head (x ∷ xs) c h =
      let (read, rest) = pop-Circular c in
      rw
        (
          for_each_cqe_from,
          gw_ring_load_head_cqe,
          counters_differ (x ∷ xs) c,
          read,
          for_each_cqe_from_lem fuel ring bits (u32_add head 1) xs rest (omega arith),
        )
        refl

  advanced :
      (n : ℕ) (ring : GwRing P W) (bits head : ℕ) (xs : List GwRingCqe)
      → n ≤ length xs
      → Circular bits ring.cqes ring.cq_mask head ring.cq_tail xs
      → Circular bits ring.cqes ring.cq_mask (u32_add head n) ring.cq_tail (drop n xs)
  advanced zero ring bits head xs h c =
      let same : head ≡ u32_add head 0 = omega (arith, c.head_fits) in
      subst (λ (i : ℕ). Circular bits ring.cqes ring.cq_mask i ring.cq_tail xs) same c
  advanced (suc n) ring bits head [] h c = absurd (omega arith)
  advanced (suc n) ring bits head (x ∷ xs) h c =
      let moved : u32_add (u32_add head 1) n ≡ u32_add head (suc n) = omega arith in
      subst (λ (i : ℕ). Circular bits ring.cqes ring.cq_mask i ring.cq_tail (drop n xs)) moved
        (advanced n ring bits (u32_add head 1) xs (omega arith) (pop-Circular c).1)

  -- The loop gw_ring_for_each_cqe visits the completions in order, and ends; one lap more than there
  -- are completions is enough fuel. gw_ring_cq_advance by a number of completions that are there
  -- drops as many, the oldest.
  pub for_each_cqe-cq_advance :
      (fuel : ℕ) (ring : GwRing P W) (bits n : ℕ) (xs : List GwRingCqe)
      → Completed bits ring xs
      → length xs < fuel
      → n ≤ length xs
      → (for_each_cqe fuel ring ≡ some xs) × Completed bits (gw_ring_cq_advance ring n) (drop n xs)
  unfolding for_each_cqe gw_ring_cq_advance
  for_each_cqe-cq_advance fuel ring bits n xs c enough there = (
    for_each_cqe_from_lem fuel ring bits ring.cq_head xs c enough,
    advanced n ring bits ring.cq_head xs there c,
  )
