-- ===== src/Tgapi/Tests.antt =====
-- Small JSON texts of an update and of a list of updates, and what lib/tgapi.c makes of them.
use Prim.Native.String.{String}
use text.Mathlib.Text as Texts
use gnuweeb_bot.Common.{
  ℕ, ◌+◌, ◌≡◌, refl, true, false, ◌&&◌, Option, none, some, List, [], ◌∷◌, ◌==◌, if◌then◌else◌,
}
use gnuweeb_bot.Common.Int.{ℤ, pos}
use gnuweeb_bot.Tgapi.{JsonC, TgMessage, TgUpdate, zero_message, zero_update, json_tokener_success}
use gnuweeb_bot.Tgapi.Memory.{Memory}
use gnuweeb_bot.Tgapi.Object.{tgj_get_message}
use gnuweeb_bot.Tgapi.Release.{tgapi_free_message, tgapi_free_update}
use gnuweeb_bot.Tgapi.Parse.{
  Tokener, TgUpdates, parse_json, tgapi_parse_update_len, tgapi_parse_updates_len_max,
}
use gnuweeb_bot.Tgapi.Owned.Free.{tgj_get_message_lem}
use gnuweeb_bot.Tgapi.Outcome.{Given, tgapi_parse_updates_lem}
use gnuweeb_bot.Tgapi.Leak.{tgapi_free_update-parsed}

-- An object is a number, 0 is NULL; its members, and the items of an array, are listed. The value of
-- an object is its number.
abbrev members : List (ℕ × String × ℕ)
members =
    (1, "update_id", 7)
    ∷ (1, "message", 2)
    ∷ (2, "message_id", 30)
    ∷ (2, "date", 31)
    ∷ (2, "from", 3)
    ∷ (2, "chat", 4)
    ∷ (2, "text", 5)
    ∷ (2, "entities", 6)
    ∷ (3, "id", 8)
    ∷ (3, "first_name", 5)
    ∷ (4, "id", 9)
    ∷ (4, "type", 5)
    ∷ (20, "result", 21)
    ∷ []

abbrev member_of : List (ℕ × String × ℕ) → ℕ → String → Option ℕ
member_of [] obj key = none
member_of ((owner, name, value) ∷ rest) obj key =
    let later = member_of rest obj key in
    if (owner == obj) && (Texts.◌==◌ name key) then some value else later

-- The array 21 is an update and a null.
abbrev json : JsonC ℕ
json = record {
  is_null = λ obj. obj == 0;
  address = λ obj. obj;
  put_result = λ refs. if refs == 1 then 1 else 0;
  json_object_object_get_ex = member_of members;
  json_object_get_uint64 = λ obj. obj;
  json_object_get_int64 = λ obj. pos obj;
  json_object_get_string = λ obj. some (obj ∷ []);
  json_object_get_boolean = λ obj. false;
  json_object_array_length = λ obj. if obj == 21 then 2 else 1;
  json_object_array_get_idx = λ obj i. if i == 0 then 1 else 0;
}

abbrev fresh : Memory
fresh = record { found = λ _. true; calls = 0; live = []; refs = λ _. 0 }

abbrev parsed : ℤ × TgMessage × Memory
unfolding tgj_get_message
parsed = tgj_get_message json zero_message 2 fresh

tgj_get_message_lem_example : (tgapi_free_message parsed.1 parsed.2).live ≡ []
unfolding parsed tgj_get_message
tgj_get_message_lem_example = tgj_get_message_lem json zero_message 2 fresh refl

abbrev one_update : Tokener ℕ
one_update = record { made = true; parse_ex = λ _. (json_tokener_success, 1) }

abbrev two_items : Tokener ℕ
two_items = record { made = true; parse_ex = λ _. (json_tokener_success, 20) }

abbrev read_one : Option (ℤ × TgUpdate ℕ × Memory)
unfolding tgapi_parse_update_len
read_one = tgapi_parse_update_len json 1 zero_update one_update fresh

abbrev unpack : Option (ℤ × TgUpdate ℕ × Memory) → TgUpdate ℕ × Memory
unpack none = (zero_update, fresh)
unpack (some (ret, update, mem)) = (update, mem)

abbrev unpack_json : Option (ℤ × Option ℕ × Memory) → Memory
unpack_json none = fresh
unpack_json (some (ret, obj, mem)) = mem

abbrev parsed_one : Memory
unfolding parse_json
parsed_one = unpack_json (parse_json json 1 one_update fresh)

abbrev update_one : TgUpdate ℕ
unfolding read_one
update_one = (unpack read_one).0

abbrev after_one : Memory
unfolding read_one
after_one = (unpack read_one).1

-- Three blocks stay in use.
still_live : after_one.live ≡ 2 ∷ 1 ∷ 0 ∷ []
unfolding after_one
still_live = refl

tgapi_free_update-parsed_example :
    ((tgapi_free_update json update_one after_one).1.live ≡ after_one.live)
    × ((tgapi_free_update json update_one after_one).1.refs 1 ≡ 0)
unfolding parse_json tgapi_parse_update_len parsed_one update_one after_one
tgapi_free_update-parsed_example =
    tgapi_free_update-parsed json 1 one_update zero_update update_one fresh parsed_one after_one 1
      refl refl refl refl refl

abbrev parsed_two : Memory
unfolding parse_json
parsed_two = unpack_json (parse_json json 1 two_items fresh)

tgapi_parse_updates_lem_example :
    (block : TgUpdates ℕ) × (mem' : Memory) × (tgapi_parse_updates_len_max json 1 two_items 5 fresh
      ≡ some (pos 0, some block, mem'))
    × Given json
        (record parsed_two {
          calls = parsed_two.calls + 1;
          live = parsed_two.calls ∷ parsed_two.live;
        })
        20
        21
        2
        block
        mem'
unfolding parse_json parsed_two
tgapi_parse_updates_lem_example =
    tgapi_parse_updates_lem json 1 two_items 5 fresh parsed_two 20 21 refl refl refl

abbrev list_live : Option (ℤ × Option (TgUpdates ℕ) × Memory) → List ℕ
list_live none = []
list_live (some (ret, updates, mem)) = mem.live

-- The second item is NULL: the array, which was block 0, is no longer in use, the status is 0 all the
-- same, and what the message of the first item owns stays.
null_item_frees_array :
    list_live (tgapi_parse_updates_len_max json 1 two_items 5 fresh) ≡ 3 ∷ 2 ∷ 1 ∷ []
unfolding tgapi_parse_updates_len_max
null_item_frees_array = refl
