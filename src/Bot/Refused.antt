-- ===== src/Bot/Refused.antt =====
-- A start of core/main.c in which the mutex of core/print.c cannot be made.
use gnuweeb_bot.Common.{ℕ, refl, true, false, none, some, [], ◌∷◌}
use gnuweeb_bot.Common.Int.{pos, negsuc}
use gnuweeb_bot.CurlHandles.Global.{list_mutex}
use gnuweeb_bot.Tgapi.{JsonC}
use gnuweeb_bot.Bot.Main.{MainEnv, Exit, main}
use gnuweeb_bot.Bot.Exit.{Ended, main_lem}

abbrev json : JsonC ℕ
json = record {
  is_null = λ obj. false;
  address = λ obj. obj;
  put_result = λ refs. refs;
  json_object_object_get_ex = λ obj key. none;
  json_object_get_uint64 = λ obj. obj;
  json_object_get_int64 = λ obj. pos obj;
  json_object_get_string = λ obj. none;
  json_object_get_boolean = λ obj. false;
  json_object_array_length = λ obj. 0;
  json_object_array_get_idx = λ obj i. 0;
}

abbrev env : MainEnv ℕ ℕ
env = record {
  token = some (65 ∷ []);
  curl = record {
    curl_global_all = 3;
    curl_global_init = λ flags. true;
    found = true;
    mutex_init = pos 0;
    found_handles = true;
    null = 0;
  };
  print_init = negsuc 11;
  ring = record {
    calloc_sqes = true;
    calloc_cqes = true;
    init_sq_lock = pos 0;
    init_cq_lock = pos 0;
    init_wait_cqe_cond = pos 0;
    alloc = record {
      calloc_wq = true;
      calloc_workers = true;
      mutex_init = pos 0;
      cond_init = λ _. pos 0;
      create = λ _. pos 0;
    };
  };
  turns = [];
  modules = [];
  waits = [];
  handles = λ cd. cd;
  memory = record { found = λ _. true; calls = 0; live = []; refs = λ _. 0 };
}

abbrev refused : Exit
refused = record { status = pos 12; http = list_mutex ∷ []; print = false }

main_lem_example : Ended env refused
unfolding main
main_lem_example = main_lem json 9 9 env refused refl
