-- ===== src/Bot.antt =====
-- core/main.c and `struct tg_bot_ctx` of include/gw/common.h: the event loop of the bot on its ring.
-- This file holds the data and how a submission is filled.
pub mod Arm
pub mod Updates
pub mod Loop
pub mod Room
pub mod Dispatch
pub mod Full
pub mod Run
pub mod Main
pub mod Exit
mod Refused
mod Tests
use gnuweeb_bot.Common.{
  ℕ, zero, suc, ◌+◌, Bool, true, false, Option, none, some, List, [], ◌∷◌, ◌++◌, ◌==◌,
  if◌then◌else◌, get_elem?,
}
use gnuweeb_bot.Common.Int.{ℤ, pos, is_neg, is_zero, ltb_ℤ, suc_ℤ}
use gnuweeb_bot.Common.Cast.{int64_of_u64}
use gnuweeb_bot.Common.Word.{u32_add}
use gnuweeb_bot.Tgapi.{JsonC, TgUpdate}
use gnuweeb_bot.Tgapi.Memory.{Memory}
use gnuweeb_bot.Tgapi.Release.{tgapi_inc_ref_update}
use gnuweeb_bot.Tgapi.Parse.{TgUpdates}
use gnuweeb_bot.Ring.{GwRing, GwRingSqe, nop, tg_api_call, tg_module_handle, other, GwRingCqe}
use gnuweeb_bot.Ring.Prep.{
  gw_ring_get_sqe, gw_ring_prep_tg_get_updates, gw_ring_prep_tg_module_handle, fill_sqe,
}
use gnuweeb_bot.Ring.Complete.{gw_ring_wait_cqe, gw_ring_cq_advance, gw_ring_load_head_cqe}
use gnuweeb_bot.Ring.Submit.{IoWq, gw_ring_submit}

-- The addresses that go through the ring: `&ctx->tctx`, `&ctx->updates`, `ctx`, and the i-th update
-- of the array at a block.
pub data Address : Type 0 where
  tctx_at updates_at ctx_at : Address
  update_at : (block i : ℕ) → Address

-- `struct tg_bot_ctx`, without the token. `memory` is the memory of lib/tgapi.c, `freed` lists the
-- updates that gw_ring_submit has freed. Identifiers are below `2 ^ 63 - 1`, where the increment does
-- not overflow.
pub record TgBotCtx (J W : Type 0) : Type 0 where
  pub ring : GwRing Address W
  pub updates : Option (TgUpdates J)
  pub max_update_id : ℤ
  pub memory : Memory
  pub freed : List Address

abbrev pub with_user_data : {P : Type 0} → ℕ → GwRingSqe P → GwRingSqe P
with_user_data d (nop _) = nop d
with_user_data d (tg_api_call _ call) = tg_api_call d call
with_user_data d (tg_module_handle _ handle) = tg_module_handle d handle
with_user_data d (other k _) = other k d

-- `TG_API_GET_UPDATES` is 0.
abbrev pub prep_get_updates : ℤ → GwRingSqe Address → GwRingSqe Address
prep_get_updates offset sqe =
    with_user_data 0 (gw_ring_prep_tg_get_updates sqe tctx_at updates_at offset)

abbrev pub prep_handle : Address → GwRingSqe Address → GwRingSqe Address
prep_handle up sqe = with_user_data 0 (gw_ring_prep_tg_module_handle sqe ctx_at up)
