-- ===== src/Bot/Exit.antt =====
-- What is left when main (core/main.c) returns.
use gnuweeb_bot.Common.{
  ℕ, ◌≡◌, ◌⊎◌, inl, inr, refl, sym, ap, ◌∙◌, Bool, true, false, Option, none, some, List, [], ◌∷◌,
  Option-cases,
}
use gnuweeb_bot.Common.Int.{ℤ, pos, negsuc, is_zero, is_neg}
use gnuweeb_bot.CurlHandles.{CurlHandleList}
use gnuweeb_bot.CurlHandles.Global.{
  Resource, handle_array, list_mutex, handle_list, curl_library, Started, Ready, ready, given_up,
  gw_curl_global_init, gw_curl_global_cleanup, cleanup_from, gw_curl_global_init-Ready,
}
use gnuweeb_bot.Tgapi.{JsonC}
use gnuweeb_bot.Ring.Init.{Built, PartEvent, gw_ring_init, gw_ring_destroy}
use gnuweeb_bot.Ring.Pool.{pool_io_wq}
use gnuweeb_bot.Bot.{Address, TgBotCtx}
use gnuweeb_bot.Bot.Run.{run_tg_bot}
use gnuweeb_bot.Bot.Main.{
  Queue, MainEnv, Exit, exit_status, with_queue, main_out, after_bot, after_ring, after_print,
  after_curl, main, fresh_ctx,
}

-- The resources of a client that is up.
abbrev all_up : List Resource
all_up = handle_array ∷ list_mutex ∷ handle_list ∷ curl_library ∷ []

-- A status that is not negative; of the HTTP client nothing but the mutex; and the mutex of
-- core/print.c only where gw_ring_init has failed.
pub record Ended {J H : Type 0} (env : MainEnv J H) (e : Exit) : Type 0 where
  pub status : is_neg e.status ≡ false
  pub http : (e.http ≡ []) ⊎ (e.http ≡ list_mutex ∷ [])
  pub print :
      (e.print ≡ false)
      ⊎ ((ret : ℤ) × (events : List PartEvent) × (gw_ring_init {P = Address} env.ring 8192
            ≡ some (ret, none, events)))

exit_status_lem : (ret : ℤ) → is_neg (exit_status ret) ≡ false
exit_status_lem (pos n) = refl
exit_status_lem (negsuc n) = refl

module _ {J H : Type 0} (json : JsonC J) (fuel cqes : ℕ) (env : MainEnv J H) where
  main_out_lem :
      (ret : ℤ) (print : Bool) (cd : CurlHandleList H) (e : Exit)
      → main_out json fuel cqes env ret print cd all_up ≡ some e
      → (is_neg e.status ≡ false) × (e.http ≡ list_mutex ∷ []) × (e.print ≡ print)
  unfolding main_out gw_curl_global_cleanup
  main_out_lem ret print cd e runs =
      elim (Option-cases (cleanup_from (env.handles cd).nr_handles 0 (env.handles cd).handles)) [
        | inl gone ↦
            let stuck : main_out json fuel cqes env ret print cd all_up ≡ none =
              rw (gone, main_out, gw_curl_global_cleanup) refl in
            absurd (cc)
        | inr (hs, cleaned) ↦
            let left : main_out json fuel cqes env ret print cd all_up
                ≡ some
                    (record { status = exit_status ret; http = list_mutex ∷ []; print = print }) =
              rw (cleaned, main_out, gw_curl_global_cleanup) refl in
            let same : record { status = exit_status ret; http = list_mutex ∷ []; print = print }
                ≡ e =
              cc in
            (
              ap (λ (x : Exit). is_neg x.status) (sym same) ∙ exit_status_lem ret,
              ap (λ (x : Exit). x.http) (sym same),
              ap (λ (x : Exit). x.print) (sym same),
            )
      ]

  quiet_exit-Ended :
      (ret : ℤ) (cd : CurlHandleList H) (e : Exit)
      → main_out json fuel cqes env ret false cd all_up ≡ some e
      → Ended env e
  quiet_exit-Ended ret cd e runs =
      let (status, http, print) = main_out_lem ret false cd e runs in
      record { status = status; http = inr http; print = inl print }

  after_bot_lem :
      (cd : CurlHandleList H) (out : Option (ℤ × TgBotCtx J Queue)) (e : Exit)
      → after_bot json fuel cqes env cd all_up out ≡ some e
      → Ended env e
  unfolding after_bot
  after_bot_lem cd none e runs = absurd (cc)
  after_bot_lem cd (some (ret, ctx)) e runs =
      elim (Option-cases (gw_ring_destroy (with_queue ctx.ring ctx.ring.wq.wq))) [
        | inl gone ↦
            let stuck : after_bot json fuel cqes env cd all_up (some (ret, ctx)) ≡ none =
              rw (gone, after_bot) refl in
            absurd (cc)
        | inr (destroyed, done) ↦
            let out : after_bot json fuel cqes env cd all_up (some (ret, ctx))
                ≡ main_out json fuel cqes env ret false cd all_up =
              rw (done, after_bot) refl in
            quiet_exit-Ended ret cd e (sym out ∙ runs)
      ]

  after_ring_lem :
      (cd : CurlHandleList H) (built : Option (Built Address)) (e : Exit)
      → gw_ring_init env.ring 8192 ≡ built
      → after_ring json fuel cqes env cd all_up built ≡ some e
      → Ended env e
  unfolding after_ring
  after_ring_lem cd none e made runs = absurd (cc)
  after_ring_lem cd (some (ret, none, events)) e made runs =
      let (status, http, print) = main_out_lem ret true cd e runs in
      record { status = status; http = inr http; print = inr (ret, events, made) }
  after_ring_lem cd (some (ret, some ring, events)) e made runs =
      after_bot_lem cd
        (run_tg_bot json pool_io_wq fuel env.modules cqes env.waits
          (fresh_ctx json fuel cqes env ring))
        e runs

  after_print_lem :
      (printed : Bool) (cd : CurlHandleList H) (e : Exit)
      → after_print json fuel cqes env printed cd all_up ≡ some e
      → Ended env e
  unfolding after_print
  after_print_lem true cd e runs = after_ring_lem cd (gw_ring_init env.ring 8192) e refl runs
  after_print_lem false cd e runs = quiet_exit-Ended env.print_init cd e runs

  after_curl_lem :
      (out : Started H) (e : Exit)
      → Ready [] out
      → after_curl json fuel cqes env out ≡ some e
      → Ended env e
  unfolding after_curl
  after_curl_lem out e (ready cd up room places empty) runs =
      after_print_lem (is_zero env.print_init) cd e
        (sym (ap (after_curl json fuel cqes env) up) ∙ runs)
  after_curl_lem out e (given_up ret bad failed) runs =
      let ended : some (record { status = pos 1; http = []; print = false }) ≡ some e =
        sym (ap (after_curl json fuel cqes env) failed) ∙ runs in
      let same : record { status = pos 1; http = []; print = false } ≡ e = cc in
      record {
        status = ap (λ (x : Exit). is_neg x.status) (sym same);
        http = inl (ap (λ (x : Exit). x.http) (sym same));
        print = inl (ap (λ (x : Exit). x.print) (sym same));
      }

  -- Whenever main returns, its status is not negative, nothing is left of the HTTP client but the
  -- mutex of its list, and the mutex of core/print.c is left only where gw_ring_init has failed.
  pub main_lem : (e : Exit) → main json fuel cqes env ≡ some e → Ended env e
  unfolding main
  main_lem e runs = elim (Option-cases env.token) [
    | inl unset ↦
        let ended : main json fuel cqes env
            ≡ some (record { status = pos 1; http = []; print = false }) =
          rw (unset, main) refl in
        let same : record { status = pos 1; http = []; print = false } ≡ e = cc in
        record {
          status = ap (λ (x : Exit). is_neg x.status) (sym same);
          http = inl (ap (λ (x : Exit). x.http) (sym same));
          print = inl (ap (λ (x : Exit). x.print) (sym same));
        }
    | inr (token, there) ↦
        let next : main json fuel cqes env
            ≡ after_curl json fuel cqes env (gw_curl_global_init env.curl 0 []) =
          rw (there, main) refl in
        after_curl_lem (gw_curl_global_init env.curl 0 []) e
          (gw_curl_global_init-Ready env.curl 0 []) (sym next ∙ runs)
  ]
