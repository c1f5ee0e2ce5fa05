-- ===== src/Bot/Run.antt =====
-- run_tg_bot (core/main.c)
use gnuweeb_bot.Common.{
  ℕ, ◌≡◌, refl, ap, ◌∙◌, true, Option, none, some, List, [], ◌∷◌, if◌then◌else◌, Bool-cases, inl,
  inr, arith,
}
use gnuweeb_bot.Common.Int.{ℤ, is_zero}
use gnuweeb_bot.Tgapi.{JsonC, TgUpdate}
use gnuweeb_bot.Modules.{GwBotModule, gw_init_modules, gw_shutdown_modules}
use gnuweeb_bot.Modules.Order.{
  run_all, inits, all_have_shutdown, gw_init_modules_lem, gw_shutdown_modules_lem,
}
use gnuweeb_bot.Ring.{GwRing, GwRingSqe}
use gnuweeb_bot.Ring.Submit.{IoWq}
use gnuweeb_bot.Bot.{Address, TgBotCtx}
use gnuweeb_bot.Bot.Arm.{arm_update_sqe}
use gnuweeb_bot.Bot.Updates.{with_status}
use gnuweeb_bot.Bot.Loop.{run_tg_bot_loop}

-- `modules` is the table of modules, whose hooks act on the context.
module _ {J W : Type 0} (json : JsonC J) (io : IoWq W (GwRingSqe Address)) (fuel : ℕ)
    (modules : List (GwBotModule (TgUpdate J) (TgBotCtx J W))) where
  -- What the other threads do to the ring in each wait of a lap of the loop.
  abbrev pub Waits : Type 0
  Waits = List (GwRing Address W → GwRing Address W)

  -- The loop, a lap for each element of the list. `none` also means that it goes on after them.
  unfoldable pub run_laps : (cqes : ℕ) → List Waits → TgBotCtx J W → Option (ℤ × TgBotCtx J W)
  unfolding run_tg_bot_loop
  run_laps cqes [] ctx = none
  run_laps cqes (waits ∷ rest) ctx = elim (run_tg_bot_loop json io fuel cqes waits ctx) [
    | none ↦ none
    | some (ret, ctx') ↦ if is_zero ret then run_laps cqes rest ctx' else some (ret, ctx')
  ]

  unfoldable pub run_armed :
      (cqes : ℕ) → List Waits → Option (TgBotCtx J W) → Option (ℤ × TgBotCtx J W)
  unfolding run_laps
  run_armed cqes waits none = none
  run_armed cqes waits (some ctx) = run_laps cqes waits ctx

  unfoldable pub shut_down : Option (ℤ × TgBotCtx J W) → Option (ℤ × TgBotCtx J W)
  unfolding gw_shutdown_modules
  shut_down none = none
  shut_down (some (ret, ctx)) = with_status ret (gw_shutdown_modules modules ctx)

  unfoldable pub after_init : (cqes : ℕ) → List Waits → ℤ × TgBotCtx J W → Option (ℤ × TgBotCtx J W)
  unfolding run_armed shut_down arm_update_sqe
  after_init cqes waits (ret, ctx) =
      if is_zero ret
      then shut_down (run_armed cqes waits (arm_update_sqe io fuel ctx))
      else some (ret, ctx)

  unfoldable pub run_tg_bot : (cqes : ℕ) → List Waits → TgBotCtx J W → Option (ℤ × TgBotCtx J W)
  unfolding gw_init_modules after_init
  run_tg_bot cqes waits ctx = after_init cqes waits (gw_init_modules modules true ctx)

  ends :
      (out : Option (ℤ × TgBotCtx J W))
      → shut_down out ≡ (if all_have_shutdown modules then out else none)
  unfolding shut_down
  ends none = ground arith
  ends (some (ret, ctx)) =
      ap (with_status ret) (gw_shutdown_modules_lem modules ctx)
      ∙ elim (Bool-cases (all_have_shutdown modules)) [
        | inl all ↦ rw all refl
        | inr some_missing ↦ rw some_missing refl
      ]

  -- run_tg_bot runs all init hooks, whatever they return, arms the first getUpdates call and ends as
  -- the loop does; but where a module has no shutdown hook it calls a null pointer in the end.
  pub run_tg_bot_lem :
      (cqes : ℕ) (waits : List Waits) (ctx : TgBotCtx J W)
      → run_tg_bot cqes waits ctx ≡ (
          if all_have_shutdown modules
          then run_armed cqes waits (arm_update_sqe io fuel (run_all (inits modules) ctx))
          else none)
  unfolding run_tg_bot after_init
  run_tg_bot_lem cqes waits ctx =
      ap (after_init cqes waits) (gw_init_modules_lem modules ctx).1
      ∙ ends (run_armed cqes waits (arm_update_sqe io fuel (run_all (inits modules) ctx)))
