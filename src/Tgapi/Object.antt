-- ===== src/Tgapi/Object.antt =====
-- tgj_get_user, tgj_get_chat, tgj_get_message and tgj_get_update (lib/tgapi.c)
use Prim.Native.String.{String}
use gnuweeb_bot.Common.{ℕ, ◌^◌, Bool, false, Option, none, some, List, [], ◌∷◌, if◌then◌else◌}
use gnuweeb_bot.Common.Int.{ℤ, pos, is_zero, is_neg}
use gnuweeb_bot.Common.Errno.{enoent, enomem, einval}
use gnuweeb_bot.Common.Cast.{int_of_size}
use gnuweeb_bot.Tgapi.{
  Text, same_text, tg_msg_unknown, tg_msg_text, JsonC, TgUser, zero_user, TgChat, zero_chat,
  tg_chat_unknown, tg_chat_supergroup, Box, TgMessage, TgUpdate, tg_update_unknown,
  tg_update_message,
}
use gnuweeb_bot.Tgapi.Memory.{Memory, malloc, free, free_opt}

-- The characters of "supergroup".
abbrev pub supergroup_text : Text
supergroup_text = 115 ∷ 117 ∷ 112 ∷ 101 ∷ 114 ∷ 103 ∷ 114 ∷ 111 ∷ 117 ∷ 112 ∷ []

-- The variants of a message after the text, in the order of the code: the key, and the type.
abbrev pub variants : List (String × ℕ)
variants =
    ("photo", 2 ^ 5)
    ∷ ("sticker", 2 ^ 6)
    ∷ ("video", 2 ^ 7)
    ∷ ("voice", 2 ^ 9)
    ∷ ("audio", 2 ^ 3)
    ∷ ("document", 2 ^ 4)
    ∷ ("location", 2 ^ 15)
    ∷ ("contact", 2 ^ 10)
    ∷ ("new_chat_members", 2 ^ 16)
    ∷ ("left_chat_member", 2 ^ 17)
    ∷ ("new_chat_title", 2 ^ 18)
    ∷ ("new_chat_photo", 2 ^ 19)
    ∷ ("delete_chat_photo", 2 ^ 20)
    ∷ ("group_chat_created", 2 ^ 21)
    ∷ ("supergroup_chat_created", 2 ^ 22)
    ∷ ("channel_chat_created", 2 ^ 23)
    ∷ ("migrate_to_chat_id", 2 ^ 24)
    ∷ ("migrate_from_chat_id", 2 ^ 25)
    ∷ ("pinned_message", 2 ^ 26)
    ∷ []

-- The labels `err_free_chat` and `err_free_from`.
abbrev pub box_at : {A : Type 0} → Option (Box A) → Option ℕ
box_at none = none
box_at (some box) = some (box.at)

unfoldable pub err_free_from : ℤ → TgMessage → Memory → ℤ × TgMessage × Memory
unfolding free_opt
err_free_from ret msg mem = (ret, record msg { from = none }, free_opt (box_at msg.from) mem)

unfoldable pub err_free_chat : ℤ → TgMessage → Memory → ℤ × TgMessage × Memory
unfolding free_opt err_free_from
err_free_chat ret msg mem =
    err_free_from ret (record msg { chat = none }) (free_opt (box_at msg.chat) mem)

-- `(size_t)ret` of a count that is not negative.
abbrev pub size_of_int : ℤ → ℕ
size_of_int (pos n) = n
size_of_int _ = 0

unfoldable pub with_entities : TgMessage → ℤ × Option ℕ × Memory → ℤ × TgMessage × Memory
with_entities msg (ret, ent, mem) =
    if is_neg ret
    then (ret, msg, mem)
    else (pos 0, record msg { entities = ent; entities_len = size_of_int ret }, mem)

-- A block for an object, and the status and the value of the object: the address is handed out only
-- where the status is zero, and the block is freed otherwise.
unfoldable pub fill_box : {A : Type 0} → ℤ × A → Option ℕ × Memory → ℤ × Option (Box A) × Memory
unfolding free
fill_box (ret, value) (none, mem) = (enomem, none, mem)
fill_box (ret, value) (some at, mem) =
    if is_zero ret
    then (pos 0, some (record { at = at; value = value }), mem)
    else (ret, none, free at mem)

-- The array of entities, and the status of tgj_get_message_entities.
unfoldable pub fill_entities : ℤ → Option ℕ × Memory → ℤ × Option ℕ × Memory
unfolding free
fill_entities ret (none, mem) = (enomem, none, mem)
fill_entities ret (some at, mem) =
    if is_neg ret then (ret, none, free at mem) else (ret, some at, mem)

module _ {J : Type 0} (json : JsonC J) where
  -- A string that may be missing, in memory that was cleared.
  abbrev pub opt_string : J → String → Option Text
  opt_string obj key = elim (json.json_object_object_get_ex obj key) [
    | none ↦ none
    | some res ↦ json.json_object_get_string res
  ]

  abbrev pub opt_boolean : J → String → Bool
  opt_boolean obj key = elim (json.json_object_object_get_ex obj key) [
    | none ↦ false
    | some res ↦ json.json_object_get_boolean res
  ]

  unfoldable pub tgj_get_user : J → ℤ × TgUser
  tgj_get_user juser = elim (json.json_object_object_get_ex juser "id") [
    | none ↦ (enoent, zero_user)
    | some jid ↦
        let id = json.json_object_get_uint64 jid in
        elim (json.json_object_object_get_ex juser "first_name") [
          | none ↦ (enoent, record zero_user { id = id })
          | some jfirst ↦ (
            pos 0,
            record {
              id = id;
              first_name = json.json_object_get_string jfirst;
              last_name = opt_string juser "last_name";
              username = opt_string juser "username";
              language_code = opt_string juser "language_code";
              is_bot = opt_boolean juser "is_bot";
            },
          )
        ]
  ]

  -- The type of a chat: `none` is a type that is no string.
  abbrev pub chat_type : J → Option ℕ
  chat_type jchat = elim (json.json_object_object_get_ex jchat "type") [
    | none ↦ some tg_chat_unknown
    | some res ↦ elim (json.json_object_get_string res) [
      | none ↦ none
      | some p ↦ some (if same_text p supergroup_text then tg_chat_supergroup else tg_chat_unknown)
    ]
  ]

  unfoldable pub tgj_get_chat : J → ℤ × TgChat
  tgj_get_chat jchat = elim (json.json_object_object_get_ex jchat "id") [
    | none ↦ (enoent, zero_chat)
    | some jid ↦
        let chat : TgChat = record zero_chat {
          id = json.json_object_get_int64 jid;
          title = opt_string jchat "title";
        } in
        elim (chat_type jchat) [
          | none ↦ (einval, chat)
          | some type ↦ (pos 0, record chat { type = type; username = opt_string jchat "username" })
        ]
  ]

  unfoldable pub tgj_get_user_and_alloc : J → Memory → ℤ × Option (Box TgUser) × Memory
  unfolding tgj_get_user fill_box malloc
  tgj_get_user_and_alloc jobj mem = fill_box (tgj_get_user jobj) (malloc mem)

  unfoldable pub tgj_get_chat_and_alloc : J → Memory → ℤ × Option (Box TgChat) × Memory
  unfolding tgj_get_chat fill_box malloc
  tgj_get_chat_and_alloc jobj mem = fill_box (tgj_get_chat jobj) (malloc mem)

  -- tgj_get_message_entities returns `(int)len`.
  unfoldable pub tgj_get_entities_and_alloc : J → Memory → ℤ × Option ℕ × Memory
  unfolding fill_entities malloc
  tgj_get_entities_and_alloc jent mem =
      fill_entities (int_of_size (json.json_object_array_length jent)) (malloc mem)

  -- The chain of tests after the one of the text.
  abbrev pub variant_of : List (String × ℕ) → J → ℕ
  variant_of [] jmsg = tg_msg_unknown
  variant_of ((key, type) ∷ rest) jmsg = elim (json.json_object_object_get_ex jmsg key) [
    | none ↦ variant_of rest jmsg
    | some res ↦ type
  ]

  unfoldable pub tgj_arrange_message_variant : TgMessage → J → Memory → ℤ × TgMessage × Memory
  unfolding tgj_get_entities_and_alloc with_entities
  tgj_arrange_message_variant msg jmsg mem = elim (json.json_object_object_get_ex jmsg "text") [
    | none ↦ (pos 0, record msg { type = variant_of variants jmsg }, mem)
    | some res ↦
        let msg' : TgMessage = record msg {
          type = tg_msg_text;
          text = json.json_object_get_string res;
        } in
        elim (json.json_object_object_get_ex jmsg "entities") [
          | none ↦ (pos 0, msg', mem)
          | some jent ↦ with_entities msg' (tgj_get_entities_and_alloc jent mem)
        ]
  ]

  unfoldable pub message_variant : TgMessage → J → Memory → ℤ × TgMessage × Memory
  unfolding tgj_arrange_message_variant err_free_chat
  message_variant msg jmsg mem =
      let (ret, msg', mem') = tgj_arrange_message_variant msg jmsg mem in
      if is_zero ret then (pos 0, msg', mem') else err_free_chat ret msg' mem'

  unfoldable pub with_chat :
      TgMessage → J → ℤ × Option (Box TgChat) × Memory → ℤ × TgMessage × Memory
  unfolding message_variant err_free_from
  with_chat msg jmsg (ret, chat, mem) =
      if is_zero ret
      then message_variant (record msg { chat = chat }) jmsg mem
      else err_free_from ret msg mem

  unfoldable pub message_chat : TgMessage → J → Memory → ℤ × TgMessage × Memory
  unfolding with_chat tgj_get_chat_and_alloc err_free_from
  message_chat msg jmsg mem = elim (json.json_object_object_get_ex jmsg "chat") [
    | none ↦ err_free_from enoent msg mem
    | some res ↦ with_chat msg jmsg (tgj_get_chat_and_alloc res mem)
  ]

  unfoldable pub with_from :
      TgMessage → J → ℤ × Option (Box TgUser) × Memory → ℤ × TgMessage × Memory
  unfolding message_chat
  with_from msg jmsg (ret, from, mem) =
      if is_zero ret then message_chat (record msg { from = from }) jmsg mem else (ret, msg, mem)

  unfoldable pub message_from : TgMessage → J → Memory → ℤ × TgMessage × Memory
  unfolding with_from tgj_get_user_and_alloc
  message_from msg jmsg mem = elim (json.json_object_object_get_ex jmsg "from") [
    | none ↦ (enoent, record msg { message_id = 0 }, mem)
    | some res ↦ with_from msg jmsg (tgj_get_user_and_alloc res mem)
  ]

  unfoldable pub tgj_get_message : TgMessage → J → Memory → ℤ × TgMessage × Memory
  unfolding message_from
  tgj_get_message msg jmsg mem = elim (json.json_object_object_get_ex jmsg "message_id") [
    | none ↦ (enoent, msg, mem)
    | some jid ↦
        let msg1 : TgMessage = record msg { message_id = json.json_object_get_uint64 jid } in
        elim (json.json_object_object_get_ex jmsg "date") [
          | none ↦ (enoent, msg1, mem)
          | some jdate ↦
              message_from (record msg1 { date = json.json_object_get_uint64 jdate }) jmsg mem
        ]
  ]

  unfoldable pub with_message : TgUpdate J → ℤ × TgMessage × Memory → ℤ × TgUpdate J × Memory
  with_message update (ret, msg, mem) =
      (ret, record update { type = tg_update_message; message = msg }, mem)

  unfoldable pub tgj_get_update : TgUpdate J → J → Memory → ℤ × TgUpdate J × Memory
  unfolding tgj_get_message with_message
  tgj_get_update update jobj mem = elim (json.json_object_object_get_ex jobj "update_id") [
    | none ↦ (enoent, update, mem)
    | some jid ↦
        let update1 : TgUpdate J = record update { update_id = json.json_object_get_uint64 jid } in
        elim (json.json_object_object_get_ex jobj "message") [
          | none ↦ (pos 0, record update1 { type = tg_update_unknown }, mem)
          | some res ↦ with_message update1 (tgj_get_message update1.message res mem)
        ]
  ]
