-- ===== src/Bot/Arm.antt =====
-- arm_update_sqe and prep_update_handle (core/main.c)
use gnuweeb_bot.Common.{ℕ, Option, none, some, List, ◌++◌, get_elem?}
use gnuweeb_bot.Common.Int.{ℤ, suc_ℤ}
use gnuweeb_bot.Ring.{GwRing, GwRingSqe}
use gnuweeb_bot.Ring.Prep.{gw_ring_get_sqe, fill_sqe}
use gnuweeb_bot.Ring.Submit.{IoWq, gw_ring_submit}
use gnuweeb_bot.Bot.{Address, TgBotCtx, prep_get_updates, prep_handle}

-- `fuel` bounds each run of gw_ring_submit.
module _ {J W : Type 0} (io : IoWq W (GwRingSqe Address)) (fuel : ℕ) where
  -- The second attempt, after gw_ring_submit, whose status is dropped. `none` is the use of the NULL
  -- that gw_ring_get_sqe may return again, or a submit that does not return.
  unfoldable pub take_again :
      TgBotCtx J W → Option (ℤ × List Address × GwRing Address W) → Option (ℕ × TgBotCtx J W)
  unfolding gw_ring_get_sqe
  take_again ctx none = none
  take_again ctx (some (ret, freed, ring)) =
      let (sqe, ring') = gw_ring_get_sqe ring in
      elim sqe [
        | none ↦ none
        | some idx ↦ some (idx, record ctx { ring = ring'; freed = ctx.freed ++ freed })
      ]

  -- The first lines of arm_update_sqe and of prep_update_handle.
  unfoldable pub take_sqe : TgBotCtx J W → Option (ℕ × TgBotCtx J W)
  unfolding gw_ring_get_sqe gw_ring_submit take_again
  take_sqe ctx =
      let (sqe, ring) = gw_ring_get_sqe ctx.ring in
      elim sqe [
        | none ↦ take_again ctx (gw_ring_submit io fuel ring)
        | some idx ↦ some (idx, record ctx { ring = ring })
      ]

  -- A change of the submission at an index.
  unfoldable pub prepare :
      (GwRingSqe Address → GwRingSqe Address) → Option (ℕ × TgBotCtx J W) → Option (TgBotCtx J W)
  prepare prep none = none
  prepare prep (some (idx, ctx)) = elim (get_elem? ctx.ring.sqes idx) [
    | none ↦ none
    | some sqe ↦ some (record ctx { ring = fill_sqe idx (prep sqe) ctx.ring })
  ]

  unfoldable pub without_updates : Option (TgBotCtx J W) → Option (TgBotCtx J W)
  without_updates none = none
  without_updates (some ctx) = some (record ctx { updates = none })

  unfoldable pub arm_update_sqe : TgBotCtx J W → Option (TgBotCtx J W)
  unfolding take_sqe prepare without_updates
  arm_update_sqe ctx =
      without_updates (prepare (prep_get_updates (suc_ℤ ctx.max_update_id)) (take_sqe ctx))

  unfoldable pub prep_update_handle : TgBotCtx J W → Address → Option (TgBotCtx J W)
  unfolding take_sqe prepare
  prep_update_handle ctx up = prepare (prep_handle up) (take_sqe ctx)
