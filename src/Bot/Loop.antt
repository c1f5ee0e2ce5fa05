-- ===== src/Bot/Loop.antt =====
-- run_tg_bot_loop (core/main.c)
use gnuweeb_bot.Common.{ℕ, zero, suc, ◌+◌, Option, none, some, List, ◌++◌, if◌then◌else◌, get_elem?}
use gnuweeb_bot.Common.Int.{ℤ, is_neg, is_zero}
use gnuweeb_bot.Common.Word.{u32_add}
use gnuweeb_bot.Tgapi.{JsonC}
use gnuweeb_bot.Ring.{GwRing, GwRingSqe}
use gnuweeb_bot.Ring.Complete.{gw_ring_wait_cqe, gw_ring_cq_advance, gw_ring_load_head_cqe}
use gnuweeb_bot.Ring.Submit.{IoWq, gw_ring_submit}
use gnuweeb_bot.Bot.{Address, TgBotCtx}
use gnuweeb_bot.Bot.Updates.{process_cqe}

module _ {J W : Type 0} (json : JsonC J) (io : IoWq W (GwRingSqe Address)) (fuel : ℕ) where
  -- The loop of run_tg_bot_loop over the completions, `ret` being the last status: the status, the
  -- number of completions that were looked at, and what is left. `none` also means that the fuel of
  -- the loop ran out.
  unfoldable pub each_cqe :
      (laps : ℕ) → (head i : ℕ) → ℤ → TgBotCtx J W → Option (ℤ × ℕ × TgBotCtx J W)
  unfolding gw_ring_load_head_cqe process_cqe
  each_cqe zero head i ret ctx = none
  each_cqe (suc laps) head i ret ctx = elim (gw_ring_load_head_cqe ctx.ring head) [
    | none ↦ some (ret, i, ctx)
    | some idx ↦ elim (get_elem? ctx.ring.cqes idx) [
      | none ↦ none
      | some cqe ↦ elim (process_cqe json io fuel ctx cqe) [
        | none ↦ none
        | some (ret', ctx') ↦
            if is_zero ret'
            then each_cqe laps (u32_add head 1) (i + 1) ret' ctx'
            else some (ret', i + 1, ctx')
      ]
    ]
  ]

  unfoldable pub advance_after : Option (ℤ × ℕ × TgBotCtx J W) → Option (ℤ × TgBotCtx J W)
  unfolding gw_ring_cq_advance
  advance_after none = none
  advance_after (some (ret, i, ctx)) =
      some (ret, record ctx { ring = gw_ring_cq_advance ctx.ring i })

  -- From gw_ring_wait_cqe on; `none` as its status is a caller that still sleeps.
  unfoldable pub after_wait :
      ℕ → TgBotCtx J W → Option ℤ × Option ℕ × GwRing Address W → Option (ℤ × TgBotCtx J W)
  unfolding each_cqe advance_after
  after_wait laps ctx (none, cqe, ring) = none
  after_wait laps ctx (some ret, cqe, ring) =
      let ctx' : TgBotCtx J W = record ctx { ring = ring } in
      if is_neg ret then some (ret, ctx') else advance_after (each_cqe laps ring.cq_head 0 ret ctx')

  unfoldable pub after_submit :
      ℕ
      → List (GwRing Address W → GwRing Address W)
      → TgBotCtx J W
      → Option (ℤ × List Address × GwRing Address W)
      → Option (ℤ × TgBotCtx J W)
  unfolding gw_ring_wait_cqe after_wait
  after_submit laps waits ctx none = none
  after_submit laps waits ctx (some (ret, freed, ring)) =
      let ctx' : TgBotCtx J W = record ctx { ring = ring; freed = ctx.freed ++ freed } in
      if is_neg ret then some (ret, ctx') else after_wait laps ctx' (gw_ring_wait_cqe waits ring)

  -- `waits` are what the other threads do to the ring while the loop sleeps.
  unfoldable pub run_tg_bot_loop :
      ℕ → List (GwRing Address W → GwRing Address W) → TgBotCtx J W → Option (ℤ × TgBotCtx J W)
  unfolding gw_ring_submit after_submit
  run_tg_bot_loop laps waits ctx = after_submit laps waits ctx (gw_ring_submit io fuel ctx.ring)
