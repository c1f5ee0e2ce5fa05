-- ===== src/Ring/Prep.antt =====
-- gw_ring_get_sqe (core/ring.c) and the functions that fill a submission (include/gw/ring.h).
use gnuweeb_bot.Common.{ℕ, Option, none, some, leb, if◌then◌else◌, bit_and, set}
use gnuweeb_bot.Common.Int.{ℤ}
use gnuweeb_bot.Common.Word.{u32_add, llabs_diff}
use gnuweeb_bot.Ring.{
  GwRing, GwRingSqe, tg_api_call, tg_module_handle, sqe_user_data, tg_api_get_updates,
}

-- `u32_diff`: the distance of two counters, which fits.
abbrev pub u32_diff : ℕ → ℕ → ℕ
u32_diff a b = llabs_diff a b

module _ {P : Type 0} where
  abbrev pub gw_ring_prep_tg_get_updates : GwRingSqe P → P → P → ℤ → GwRingSqe P
  gw_ring_prep_tg_get_updates sqe ctx updates_p offset =
      tg_api_call (sqe_user_data sqe)
        (record { op = tg_api_get_updates; ctx = ctx; updates_p = updates_p; offset = offset })

  abbrev pub gw_ring_prep_tg_module_handle : GwRingSqe P → P → P → GwRingSqe P
  gw_ring_prep_tg_module_handle sqe ctx update =
      tg_module_handle (sqe_user_data sqe) (record { ctx = ctx; update = update })

module _ {P W : Type 0} where
  -- The address of a free submission is its index in `sqes`; `none` is NULL.
  unfoldable pub gw_ring_get_sqe : GwRing P W → Option ℕ × GwRing P W
  gw_ring_get_sqe ring =
      if leb (u32_add ring.sq_mask 1) (u32_diff ring.sq_head ring.sq_tail) then (none, ring) else (
        some (bit_and ring.sq_tail ring.sq_mask),
        record ring { sq_tail = u32_add ring.sq_tail 1 },
      )

  -- What a caller does to the submission it got.
  abbrev pub fill_sqe : ℕ → GwRingSqe P → GwRing P W → GwRing P W
  fill_sqe idx sqe ring = record ring { sqes = set ring.sqes idx sqe }
