-- ===== src/Ring/Complete.antt =====
-- The completion side of core/ring.c and include/gw/ring.h: post_cqe, gw_ring_wait_cqe and what a
-- consumer does with completions.
use gnuweeb_bot.Common.{
  ℕ, zero, suc, Bool, true, false, not, Option, none, some, List, [], ◌∷◌, leb, ◌==◌, if◌then◌else◌,
  bit_and, set, get_elem?,
}
use gnuweeb_bot.Common.Int.{ℤ, is_nonpositive}
use gnuweeb_bot.Common.Errno.{eagain, eownerdead}
use gnuweeb_bot.Common.Cast.{int_of_u32}
use gnuweeb_bot.Common.Word.{u32_add}
use gnuweeb_bot.Ring.{GwRing, GwRingSqe, GwRingCqe, sqe_op, sqe_user_data}
use gnuweeb_bot.Ring.Prep.{u32_diff}

-- The completion that `post_cqe` writes.
abbrev pub cqe_of : {P : Type 0} → GwRingSqe P → ℤ → GwRingCqe
cqe_of sqe res = record { op = sqe_op sqe; res = res; flags = 0; user_data = sqe_user_data sqe }

module _ {P W : Type 0} where
  -- Beside the status: whether it broadcasts `wait_cqe_cond`.
  unfoldable pub post_cqe : GwRing P W → GwRingSqe P → ℤ → Bool × Bool × GwRing P W
  post_cqe ring sqe res =
      if leb (u32_add ring.cq_mask 1) (u32_diff ring.cq_tail ring.cq_head)
      then (false, false, ring)
      else (
        true,
        ring.wait_cqe_cond_flag,
        record ring {
          cqes = set ring.cqes (bit_and ring.cq_tail ring.cq_mask) (cqe_of sqe res);
          cq_tail = u32_add ring.cq_tail 1;
        },
      )

  -- `__gw_ring_wait_cqe`: the status, and the index in `cqes` that it stores through `cqe_p`.
  unfoldable pub peek_cqe : GwRing P W → ℤ × Option ℕ
  peek_cqe ring = if ring.cq_tail == ring.cq_head then (eagain, none) else (
    int_of_u32 (u32_diff ring.cq_tail ring.cq_head),
    some (bit_and ring.cq_head ring.cq_mask),
  )

  -- One lap of `gw_ring_wait_cqe`, up to its return or to the wait; the status `none` says that the
  -- caller sleeps.
  unfoldable pub wait_cqe_lap : GwRing P W → Option ℤ × Option ℕ × GwRing P W
  unfolding peek_cqe
  wait_cqe_lap ring =
      let (ret, cqe) = peek_cqe ring in
      if ring.should_stop
      then (some eownerdead, none, ring)
      else if is_nonpositive ret
      then (none, cqe, record ring { wait_cqe_cond_flag = true })
      else (some ret, cqe, ring)

  -- After `cond_wait`, with the lock taken again.
  unfoldable pub wait_cqe_wake : GwRing P W → Option ℤ × Option ℕ × GwRing P W
  unfolding wait_cqe_lap
  wait_cqe_wake ring = wait_cqe_lap (record ring { wait_cqe_cond_flag = false })

  -- The loop: each entry of the list is what the other threads do to the ring during one wait;
  -- where the list ends, the caller still sleeps.
  unfoldable pub wait_cqe_waits :
      List (GwRing P W → GwRing P W)
      → Option ℤ × Option ℕ × GwRing P W
      → Option ℤ × Option ℕ × GwRing P W
  wait_cqe_waits [] lap = lap
  wait_cqe_waits (others ∷ waits) (some ret, cqe, ring) = (some ret, cqe, ring)
  wait_cqe_waits (others ∷ waits) (none, cqe, ring) =
      wait_cqe_waits waits (wait_cqe_wake (others ring))

  unfoldable pub gw_ring_wait_cqe :
      List (GwRing P W → GwRing P W) → GwRing P W → Option ℤ × Option ℕ × GwRing P W
  unfolding wait_cqe_lap wait_cqe_waits
  gw_ring_wait_cqe waits ring = wait_cqe_waits waits (wait_cqe_lap ring)

  unfoldable pub gw_ring_cq_advance : GwRing P W → ℕ → GwRing P W
  gw_ring_cq_advance ring n = record ring { cq_head = u32_add ring.cq_head n }

  -- The index in `cqes`; `none` is NULL.
  unfoldable pub gw_ring_load_head_cqe : GwRing P W → ℕ → Option ℕ
  gw_ring_load_head_cqe ring head =
      if not (head == ring.cq_tail) then some (bit_and head ring.cq_mask) else none

  -- `gw_ring_for_each_cqe` from `head` on, with a body that reads the completion. `none` means that
  -- the fuel ran out, or a read outside the array.
  unfoldable pub for_each_cqe_from : ℕ → GwRing P W → ℕ → Option (List GwRingCqe)
  unfolding gw_ring_load_head_cqe
  for_each_cqe_from zero ring head = none
  for_each_cqe_from (suc fuel) ring head =
      let rest = for_each_cqe_from fuel ring (u32_add head 1) in
      elim (gw_ring_load_head_cqe ring head) [
        | none ↦ some []
        | some idx ↦ elim (get_elem? ring.cqes idx) [
          | none ↦ none
          | some cqe ↦ elim rest [ none ↦ none | some cqes ↦ some (cqe ∷ cqes) ]
        ]
      ]

  unfoldable pub for_each_cqe : ℕ → GwRing P W → Option (List GwRingCqe)
  unfolding for_each_cqe_from
  for_each_cqe fuel ring = for_each_cqe_from fuel ring ring.cq_head
