-- ===== src/Bot/Updates.antt =====
-- process_tg_api_updates and process_cqe (core/main.c)
use gnuweeb_bot.Common.{ℕ, ◌+◌, Option, none, some, List, [], ◌∷◌, ◌==◌, if◌then◌else◌}
use gnuweeb_bot.Common.Int.{ℤ, pos, is_neg, ltb_ℤ}
use gnuweeb_bot.Common.Cast.{int64_of_u64}
use gnuweeb_bot.Tgapi.{JsonC, TgUpdate}
use gnuweeb_bot.Tgapi.Release.{tgapi_inc_ref_update}
use gnuweeb_bot.Tgapi.Parse.{TgUpdates}
use gnuweeb_bot.Ring.{GwRingSqe, GwRingCqe}
use gnuweeb_bot.Ring.Submit.{IoWq}
use gnuweeb_bot.Bot.{Address, update_at, TgBotCtx}
use gnuweeb_bot.Bot.Arm.{arm_update_sqe, prep_update_handle}

abbrev pub note_id : {J : Type 0} → TgUpdate J → ℤ → ℤ
note_id up max_update_id =
    if ltb_ℤ max_update_id (int64_of_u64 up.update_id)
    then int64_of_u64 up.update_id
    else max_update_id

abbrev pub with_status : {C : Type 0} → ℤ → Option (C) → Option (ℤ × C)
with_status res none = none
with_status res (some ctx) = some (res, ctx)

module _ {J W : Type 0} (json : JsonC J) (io : IoWq W (GwRingSqe Address)) (fuel : ℕ) where
  unfoldable pub process_tg_api_update : TgBotCtx J W → TgUpdate J → Address → Option (TgBotCtx J W)
  unfolding tgapi_inc_ref_update prep_update_handle
  process_tg_api_update ctx up at =
      prep_update_handle io fuel (record ctx { memory = tgapi_inc_ref_update json up ctx.memory })
        at

  -- The loop over the updates from the i-th on, of the array at `block`.
  unfoldable pub process_each :
      (block i : ℕ) → List (TgUpdate J) → TgBotCtx J W → Option (TgBotCtx J W)
  unfolding process_tg_api_update
  process_each block i [] ctx = some ctx
  process_each block i (up ∷ ups) ctx =
      elim (process_tg_api_update (record ctx { max_update_id = note_id up ctx.max_update_id }) up
        (update_at block i)) [ none ↦ none | some ctx' ↦ process_each block (i + 1) ups ctx' ]

  unfoldable pub arm_after : Option (TgBotCtx J W) → Option (TgBotCtx J W)
  unfolding arm_update_sqe
  arm_after none = none
  arm_after (some ctx) = arm_update_sqe io fuel ctx

  -- `len` of an array is the number of its slots.
  unfoldable pub process_updates : Option (TgUpdates J) → TgBotCtx J W → Option (TgBotCtx J W)
  unfolding process_each
  process_updates none ctx = some ctx
  process_updates (some block) ctx = process_each block.at 0 block.updates ctx

  unfoldable pub process_tg_api_updates : TgBotCtx J W → ℤ → Option (ℤ × TgBotCtx J W)
  unfolding arm_update_sqe arm_after process_updates
  process_tg_api_updates ctx res =
      if is_neg res
      then with_status (pos 0) (arm_update_sqe io fuel ctx)
      else with_status res (arm_after (process_updates ctx.updates ctx))

  -- The status of a completion is that of an `int`, which the conversion keeps.
  unfoldable pub process_tg_api_cqe : TgBotCtx J W → GwRingCqe → Option (ℤ × TgBotCtx J W)
  unfolding process_tg_api_updates
  process_tg_api_cqe ctx cqe =
      if cqe.user_data == 0 then process_tg_api_updates ctx cqe.res else some (pos 0, ctx)

  unfoldable pub process_cqe : TgBotCtx J W → GwRingCqe → Option (ℤ × TgBotCtx J W)
  unfolding process_tg_api_cqe
  process_cqe ctx cqe = if cqe.op == 1 then process_tg_api_cqe ctx cqe else some (pos 0, ctx)
