-- ===== src/Tgapi/Call/Tests.antt =====
-- A getUpdates call whose body comes in two pieces (lib/tgapi.c).
use gnuweeb_bot.Common.{
  get_elem?, ◌<◌, ℕ, ◌-◌, ◌≡◌, refl, true, false, Option, none, some, List, [], ◌∷◌, arith,
}
use gnuweeb_bot.Common.Int.{pos}
use gnuweeb_bot.CurlData.{CurlData, size_mod}
use gnuweeb_bot.CurlData.Append.{Text}
use gnuweeb_bot.CurlHandles.{CurlHandleList}
use gnuweeb_bot.Tgapi.{JsonC, json_tokener_success}
use gnuweeb_bot.Tgapi.Memory.{Memory}
use gnuweeb_bot.Tgapi.Parse.{Tokener, tgapi_parse_updates_len_max}
use gnuweeb_bot.Tgapi.Call.{CurlC, parsed_body, tgapi_call_get_updates}
use gnuweeb_bot.Tgapi.Call.Deliver.{deliver}
use gnuweeb_bot.Tgapi.Call.Fetch.{tgapi_call_get_updates_lem}

abbrev json : JsonC ℕ
json = record {
  is_null = λ obj. false;
  address = λ obj. obj;
  put_result = λ refs. refs;
  json_object_object_get_ex = λ obj key. some 5;
  json_object_get_uint64 = λ obj. obj;
  json_object_get_int64 = λ obj. pos obj;
  json_object_get_string = λ obj. none;
  json_object_get_boolean = λ obj. true;
  json_object_array_length = λ obj. 0;
  json_object_array_get_idx = λ obj i. 0;
}

abbrev curl : CurlC ℕ
curl = record {
  curl_easy_init = λ cd. some 7;
  curl_easy_perform = λ ch url write body. deliver write ((91 ∷ []) ∷ (93 ∷ []) ∷ []) body;
  curl_easy_escape = λ ch text. some [];
  get_updates_url = λ token offset. token;
  send_message_url = λ token chat_id escaped reply_to. token;
  current = none;
  found = true;
  junk = 0;
  junk_handle = 0;
}

-- Any text parses to the object of its length.
abbrev tokener : Option (List ℕ) → ℕ → Tokener ℕ
tokener text len = record { made = true; parse_ex = λ _. (json_tokener_success, len) }

abbrev one_place : CurlHandleList ℕ
one_place = record { handles = 0 ∷ []; allocated = 1; nr_handles = 0 }

abbrev fresh : Memory
fresh = record { found = λ _. true; calls = 0; live = []; refs = λ _. 0 }

tgapi_call_get_updates_lem_example :
    (body : CurlData) × (cd' : CurlHandleList ℕ) × Text body (91 ∷ 93 ∷ [])
    × (cd'.nr_handles ≡ 1)
    × (get_elem? cd'.handles 0 ≡ some 7)
    × ((i : ℕ) → i < 0 → get_elem? cd'.handles i ≡ get_elem? one_place.handles i)
    × (tgapi_call_get_updates json 1 curl tokener (65 ∷ []) (pos 4) one_place fresh
        ≡ parsed_body json 1 curl tokener cd'
            (tgapi_parse_updates_len_max json 1 (tokener body.data' 3) (size_mod - 1) fresh))
tgapi_call_get_updates_lem_example =
    tgapi_call_get_updates_lem json 1 curl tokener (65 ∷ []) (pos 4) one_place fresh 7
      ((91 ∷ []) ∷ (93 ∷ []) ∷ []) 4096 (record { sized = refl; fits = omega arith }) (omega arith)
      refl refl refl refl (omega arith) (omega arith) (omega arith)
