-- ===== src/Bot/Main.antt =====
-- main (core/main.c): the start and the exit of the program. `H` is a handle of libcurl.
use gnuweeb_bot.Common.{ℕ, suc, Bool, true, false, Option, none, some, List, []}
use gnuweeb_bot.Common.Int.{ℤ, pos, negsuc, is_zero}
use gnuweeb_bot.CurlHandles.{CurlHandleList}
use gnuweeb_bot.CurlHandles.Global.{
  Resource, CurlEnv, Started, gw_curl_global_init, gw_curl_global_cleanup,
}
use gnuweeb_bot.Tgapi.{Text, JsonC, TgUpdate}
use gnuweeb_bot.Tgapi.Memory.{Memory}
use gnuweeb_bot.Modules.{GwBotModule}
use gnuweeb_bot.Ring.{GwRing, GwRingSqe}
use gnuweeb_bot.Ring.Init.{RingEnv, IoRing, Built, gw_ring_init, gw_ring_destroy}
use gnuweeb_bot.Ring.Pool.{Pool, Turn, pool_io_wq}
use gnuweeb_bot.Bot.{Address, TgBotCtx}
use gnuweeb_bot.Bot.Run.{run_tg_bot}

abbrev pub Queue : Type 0
Queue = Pool (GwRingSqe Address)

-- What the program meets: the environment variable with the token, the calls of the C library on the
-- way, the modules, what the threads do while the loop waits (`waits`) and which handles they leave
-- (`handles`), and the memory of the updates.
pub record MainEnv (J H : Type 0) : Type 0 where
  pub token : Option Text
  pub curl : CurlEnv H
  pub print_init : ℤ
  pub ring : RingEnv
  pub turns : List (Turn (GwRingSqe Address))
  pub modules : List (GwBotModule (TgUpdate J) (TgBotCtx J Queue))
  pub waits : List (List (GwRing Address Queue → GwRing Address Queue))
  pub handles : CurlHandleList H → CurlHandleList H
  pub memory : Memory

-- How the program ends: its status, what is left of the HTTP client, and whether the mutex of
-- core/print.c is.
pub record Exit : Type 0 where
  pub status : ℤ
  pub http : List Resource
  pub print : Bool

-- `if (ret < 0) ret = -ret;`
abbrev pub exit_status : ℤ → ℤ
exit_status (pos n) = pos n
exit_status (negsuc n) = pos (suc n)

-- The ring with its work queue replaced.
abbrev pub with_queue : {V W : Type 0} → GwRing Address V → W → GwRing Address W
with_queue ring wq = record {
  should_stop = ring.should_stop;
  wait_cqe_cond_flag = ring.wait_cqe_cond_flag;
  sq_head = ring.sq_head;
  sq_tail = ring.sq_tail;
  sq_mask = ring.sq_mask;
  cq_head = ring.cq_head;
  cq_tail = ring.cq_tail;
  cq_mask = ring.cq_mask;
  cqes = ring.cqes;
  sqes = ring.sqes;
  wq = wq;
}

abbrev pub exit_with : ℤ → Bool → {H : Type 0} → Option (List H × List Resource) → Option Exit
exit_with ret print none = none
exit_with ret print (some (cleaned, http)) =
    some (record { status = exit_status ret; http = http; print = print })

module _ {J H : Type 0} (json : JsonC J) (fuel cqes : ℕ) (env : MainEnv J H) where
  -- The label `out`.
  unfoldable pub main_out : ℤ → Bool → CurlHandleList H → List Resource → Option Exit
  unfolding gw_curl_global_cleanup
  main_out ret print cd http = exit_with ret print (gw_curl_global_cleanup (env.handles cd) http)

  -- After run_tg_bot.
  unfoldable pub after_bot :
      CurlHandleList H → List Resource → Option (ℤ × TgBotCtx J Queue) → Option Exit
  unfolding main_out gw_ring_destroy
  after_bot cd http none = none
  after_bot cd http (some (ret, ctx)) =
      elim (gw_ring_destroy (with_queue ctx.ring ctx.ring.wq.wq)) [
        | none ↦ none
        | some destroyed ↦ main_out ret false cd http
      ]

  abbrev pub fresh_ctx : IoRing Address → TgBotCtx J Queue
  fresh_ctx ring = record {
    ring = with_queue ring (record { wq = ring.wq; turns = env.turns });
    updates = none;
    max_update_id = pos 0;
    memory = env.memory;
    freed = [];
  }

  -- After gw_ring_init, whose ring is there where its status is zero.
  unfoldable pub after_ring :
      CurlHandleList H → List Resource → Option (Built Address) → Option Exit
  unfolding main_out after_bot run_tg_bot
  after_ring cd http none = none
  after_ring cd http (some (ret, none, events)) = main_out ret true cd http
  after_ring cd http (some (ret, some ring, events)) =
      after_bot cd http
        (run_tg_bot json pool_io_wq fuel env.modules cqes env.waits (fresh_ctx ring))

  -- After gw_print_global_init: whether its status was zero.
  unfoldable pub after_print : Bool → CurlHandleList H → List Resource → Option Exit
  unfolding main_out after_ring gw_ring_init
  after_print true cd http = after_ring cd http (gw_ring_init env.ring 8192)
  after_print false cd http = main_out env.print_init false cd http

  -- After gw_curl_global_init.
  unfoldable pub after_curl : Started H → Option Exit
  unfolding after_print
  after_curl (ret, none, http) = some (record { status = pos 1; http = http; print = false })
  after_curl (ret, some cd, http) = after_print (is_zero env.print_init) cd http

  -- `none` is a fault or a program that goes on.
  unfoldable pub main : Option Exit
  unfolding after_curl gw_curl_global_init
  main = elim env.token [
    | none ↦ some (record { status = pos 1; http = []; print = false })
    | some token ↦ after_curl (gw_curl_global_init env.curl 0 [])
  ]
