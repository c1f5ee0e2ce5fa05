-- ===== src/Ring/Slots.antt =====
-- What gw_ring_get_sqe, post_cqe, gw_ring_wait_cqe and gw_ring_cq_advance (core/ring.c,
-- include/gw/ring.h) do to the two circular arrays.
use gnuweeb_bot.Common.{
  ℕ, ◌+◌, ◌<◌, ◌≡◌, refl, ap, ◌∙◌, false, not, none, some, List, [], ◌∷◌, ◌++◌, arith, leb, ◌||◌,
  if◌then◌else◌, bit_and, length, get_elem?, Bool-cases, inl, inr, ◌^◌, append-nil,
}
use gnuweeb_bot.Common.Int.{ℤ, pos}
use gnuweeb_bot.Common.Errno.{eownerdead}
use gnuweeb_bot.Common.Word.{u32_mod, u32_add, llabs_diff}
use gnuweeb_bot.Common.Circular.{
  Circular, push-Circular, pop-Circular, looks_full, size-le, is_empty,
}
use gnuweeb_bot.Ring.{GwRing, GwRingSqe, GwRingCqe}
use gnuweeb_bot.Ring.Prep.{gw_ring_get_sqe, fill_sqe}
use gnuweeb_bot.Ring.Complete.{post_cqe, cqe_of, peek_cqe, wait_cqe_lap}

-- `mask + 1u` does not wrap.
pub mask_fits {ℓ} :
    {A : Type ℓ} {bits mask head tail : ℕ} {array xs : List A}
    → Circular bits array mask head tail xs
    → u32_add mask 1 ≡ mask + 1
mask_fits c = omega (arith, size-le c)

pub llabs_diff_comm : (a b : ℕ) → llabs_diff a b ≡ llabs_diff b a
llabs_diff_comm a b = ground arith

module _ {P W : Type 0} where
  -- The submissions between the counters, and the completions.
  abbrev pub Submitted : ℕ → GwRing P W → List (GwRingSqe P) → Type 0
  Submitted bits ring xs = Circular bits ring.sqes ring.sq_mask ring.sq_head ring.sq_tail xs

  abbrev pub Completed : ℕ → GwRing P W → List GwRingCqe → Type 0
  Completed bits ring xs = Circular bits ring.cqes ring.cq_mask ring.cq_head ring.cq_tail xs

  -- gw_ring_get_sqe on a ring with room, whose tail has not wrapped ahead of its head, gives a
  -- submission that the caller can fill: it is then the last of the submissions, and the others are
  -- as they were.
  pub gw_ring_get_sqe-fill :
      (ring : GwRing P W) (bits : ℕ) (xs : List (GwRingSqe P)) (sqe : GwRingSqe P)
      → Submitted bits ring xs
      → length xs < ring.sq_mask + 1
      → ring.sq_head + length xs < u32_mod
      → (idx : ℕ) × ((gw_ring_get_sqe ring).0 ≡ some idx)
        × Submitted bits (fill_sqe idx sqe (gw_ring_get_sqe ring).1) (xs ++ sqe ∷ [])
  unfolding gw_ring_get_sqe
  gw_ring_get_sqe-fill ring bits xs sqe c free unwrapped =
      let full = looks_full c in
      let below : leb (u32_add ring.sq_mask 1) (llabs_diff ring.sq_head ring.sq_tail) ≡ false =
        ground (arith, mask_fits c, llabs_diff_comm ring.sq_head ring.sq_tail) in
      rw below (bit_and ring.sq_tail ring.sq_mask, refl, push-Circular sqe c free)

  -- A completion is posted unless the completions fill their array or `cq_tail` has wrapped ahead of
  -- `cq_head`; it is then the last of them, and otherwise they stay as they were.
  pub post_cqe-Completed :
      (ring : GwRing P W) (bits : ℕ) (xs : List GwRingCqe) (sqe : GwRingSqe P) (res : ℤ)
      → Completed bits ring xs
      → ((post_cqe ring sqe res).0
          ≡ not (leb (ring.cq_mask + 1) (length xs) || leb u32_mod (ring.cq_head + length xs)))
        × Completed bits
            (post_cqe ring sqe res).2
            (xs ++ (if (post_cqe ring sqe res).0 then cqe_of sqe res ∷ [] else []))
  unfolding post_cqe
  post_cqe-Completed ring bits xs sqe res c =
      let full = looks_full c in
      let test : leb (u32_add ring.cq_mask 1) (llabs_diff ring.cq_tail ring.cq_head)
          ≡ (leb (ring.cq_mask + 1) (length xs) || leb u32_mod (ring.cq_head + length xs)) =
        ap (λ (m : ℕ). leb m (llabs_diff ring.cq_tail ring.cq_head)) (mask_fits c) ∙ full in
      elim (Bool-cases
        (leb (ring.cq_mask + 1) (length xs) || leb u32_mod (ring.cq_head + length xs))) [
          | inl refuses ↦ rw (test, refuses) (refl, rw (append-nil xs) c)
          | inr takes ↦ rw (test, takes) (refl, push-Circular (cqe_of sqe res) c (ground arith))
        ]

  -- One lap of gw_ring_wait_cqe, with fewer than `2 ^ 31` completions: a stopped ring returns
  -- -EOWNERDEAD; without completions, or with a `cq_tail` that has wrapped ahead of `cq_head`, the
  -- caller sleeps; otherwise their number is returned.
  pub wait_cqe_lap_lem :
      (ring : GwRing P W) (bits : ℕ) (xs : List GwRingCqe)
      → Completed bits ring xs
      → length xs < 2 ^ 31
      → (wait_cqe_lap ring).0 ≡ (
          if ring.should_stop
          then some eownerdead
          else if is_empty xs || leb u32_mod (ring.cq_head + length xs)
          then none
          else some (pos (length xs)))
  unfolding wait_cqe_lap peek_cqe
  wait_cqe_lap_lem ring bits [] c h =
      let same : ring.cq_tail ≡ ring.cq_head = omega (arith, c.tail_at, c.head_fits) in ground arith
  wait_cqe_lap_lem ring bits (x ∷ xs) c h =
      ground (arith, c.tail_at, c.head_fits, c.room, size-le c)

  -- Where it returns a number, the completion it stores is the oldest.
  pub wait_cqe_lap_oldest :
      (ring : GwRing P W) (bits n : ℕ) (x : GwRingCqe) (xs : List GwRingCqe)
      → Completed bits ring (x ∷ xs)
      → (wait_cqe_lap ring).0 ≡ some (pos n)
      → (idx : ℕ) × ((wait_cqe_lap ring).1 ≡ some idx) × (get_elem? ring.cqes idx ≡ some x)
  unfolding wait_cqe_lap peek_cqe
  wait_cqe_lap_oldest ring bits n x xs c e = (
    bit_and ring.cq_head ring.cq_mask,
    ground (arith, c.tail_at, c.head_fits, c.room, size-le c),
    (pop-Circular c).0,
  )
