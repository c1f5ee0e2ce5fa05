-- ===== src/Modules/Tests.antt =====
-- The hooks of small tables of modules (modules/module.c), and the ping module.
use gnuweeb_bot.Common.{ℕ, ◌+◌, ◌≡◌, refl, true, false, some, List, [], ◌∷◌}
use gnuweeb_bot.Common.Int.{ℤ, pos}
use gnuweeb_bot.Common.Errno.{enomem}
use gnuweeb_bot.Modules.{Hook, GwBotModule, gw_module_handle}
use gnuweeb_bot.Tgapi.{JsonC, TgUpdate, TgaCallSendMessage, zero_update}
use gnuweeb_bot.Tgapi.Memory.{Memory}
use gnuweeb_bot.Tgapi.Object.{tgj_get_update}
use gnuweeb_bot.Modules.Ping.{ping_text}

-- The world counts the hooks that have run.
abbrev counting : ℤ → Hook ℕ
counting ret n = (ret, n + 1)

abbrev module_of : ℕ → ℤ → GwBotModule ℕ ℕ
module_of types ret = record {
  listen_update_types = types;
  init = some (counting ret);
  handle = some (λ up. counting ret);
  shutdown = some (λ n. n + 1);
}

abbrev table : List (GwBotModule ℕ ℕ)
table = module_of 1 (pos 0) ∷ module_of 2 (pos 0) ∷ module_of 1 enomem ∷ module_of 1 (pos 0) ∷ []

-- The second module does not listen, and the third fails.
table_run : gw_module_handle table (λ up. up) 1 0 ≡ (enomem, 2)
unfolding gw_module_handle
table_run = refl

abbrev send : TgaCallSendMessage → Hook (List TgaCallSendMessage)
send call calls = (pos 0, call ∷ calls)

-- Each member of an object is there; its string is ".ping".
abbrev json : JsonC ℕ
json = record {
  is_null = λ obj. false;
  address = λ obj. obj;
  put_result = λ refs. refs;
  json_object_object_get_ex = λ obj key. some 5;
  json_object_get_uint64 = λ obj. obj;
  json_object_get_int64 = λ obj. pos obj;
  json_object_get_string = λ obj. some (46 ∷ ping_text);
  json_object_get_boolean = λ obj. true;
  json_object_array_length = λ obj. 0;
  json_object_array_get_idx = λ obj i. 0;
}

abbrev fresh : Memory
fresh = record { found = λ _. true; calls = 0; live = []; refs = λ _. 0 }

abbrev parsed : ℤ × TgUpdate ℕ × Memory
unfolding tgj_get_update
parsed = tgj_get_update json zero_update 9 fresh
