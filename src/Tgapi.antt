-- ===== src/Tgapi.antt =====
-- lib/tgapi.c and include/gw/lib/tgapi.h: the objects of the Telegram API, and json-c, which is not
-- in the repository. The children hold the functions and what is proved of them.
pub mod Memory
pub mod Object
pub mod Release
pub mod Owned
pub mod Parse
pub mod Updates
pub mod Outcome
pub mod Leak
pub mod Call
mod Tests
use Prim.Native.String.{String}
use gnuweeb_bot.Common.{ℕ, Bool, true, false, ◌&&◌, Option, none, some, List, [], ◌∷◌, ◌==◌}
use gnuweeb_bot.Common.Int.{ℤ, pos}

-- A C string that is not NULL: its characters, without the final NUL.
abbrev pub Text : Type 0
Text = List ℕ

-- `strcmp` of two texts is 0.
abbrev pub same_text : Text → Text → Bool
same_text [] [] = true
same_text (a ∷ left) (b ∷ right) = (a == b) && same_text left right
same_text _ _ = false

-- What json_tokener_get_error returns.
pub data TokenerError : Type 0 where
  json_tokener_success json_tokener_continue json_tokener_failed : TokenerError

-- json-c: `J` is a pointer to an object, NULL among them, which stands for a JSON null. A function on
-- a pointer of the wrong kind returns its neutral value. `json_object_object_get_ex` is `none` where
-- it returns false. `address` tells objects apart. `put_result` is what json_object_put returns, by the
-- references to the object before.
pub record JsonC (J : Type 0) : Type 0 where
  pub is_null : J → Bool
  pub address : J → ℕ
  pub put_result : ℕ → ℕ
  pub json_object_object_get_ex : J → String → Option J
  pub json_object_get_uint64 : J → ℕ
  pub json_object_get_int64 : J → ℤ
  pub json_object_get_string : J → Option Text
  pub json_object_get_boolean : J → Bool
  pub json_object_array_length : J → ℕ
  pub json_object_array_get_idx : J → ℕ → J

-- `struct tg_user`, with the fields that the code sets; `none` is NULL.
pub record TgUser : Type 0 where
  pub id : ℕ
  pub first_name : Option Text
  pub last_name : Option Text
  pub username : Option Text
  pub language_code : Option Text
  pub is_bot : Bool

-- After `memset`.
abbrev pub zero_user : TgUser
zero_user = record {
  id = 0;
  first_name = none;
  last_name = none;
  username = none;
  language_code = none;
  is_bot = false;
}

-- `TG_CHAT_UNKNOWN` and `TG_CHAT_SUPERGROUP`
abbrev pub tg_chat_unknown : ℕ
tg_chat_unknown = 0

abbrev pub tg_chat_supergroup : ℕ
tg_chat_supergroup = 4

-- `struct tg_chat`, with the fields that the code sets.
pub record TgChat : Type 0 where
  pub id : ℤ
  pub title : Option Text
  pub username : Option Text
  pub type : ℕ

-- After `memset`.
abbrev pub zero_chat : TgChat
zero_chat = record { id = pos 0; title = none; username = none; type = tg_chat_unknown }

-- A pointer that is not NULL: where it points, and what is there.
pub record Box (A : Type 0) : Type 0 where
  pub at : ℕ
  pub value : A

-- `TG_MSG_UNKNOWN` and `TG_MSG_TEXT`
abbrev pub tg_msg_unknown : ℕ
tg_msg_unknown = 1

abbrev pub tg_msg_text : ℕ
tg_msg_text = 2

-- `struct tg_message`, with the fields that the code sets. No code looks into an entity.
pub record TgMessage : Type 0 where
  pub message_id : ℕ
  pub from : Option (Box TgUser)
  pub date : ℕ
  pub chat : Option (Box TgChat)
  pub text : Option Text
  pub entities : Option ℕ
  pub entities_len : ℕ
  pub type : ℕ

-- `TG_UPDATE_UNKNOWN` and `TG_UPDATE_MESSAGE`
abbrev pub tg_update_unknown : ℕ
tg_update_unknown = 0

abbrev pub tg_update_message : ℕ
tg_update_message = 1

-- `struct tg_update`; `json` is NULL where it is `none`.
pub record TgUpdate (J : Type 0) : Type 0 where
  pub update_id : ℕ
  pub type : ℕ
  pub message : TgMessage
  pub json : Option J

-- Cleared memory.
abbrev pub zero_message : TgMessage
zero_message = record {
  message_id = 0;
  from = none;
  date = 0;
  chat = none;
  text = none;
  entities = none;
  entities_len = 0;
  type = 0;
}

abbrev pub zero_update : {J : Type 0} → TgUpdate J
zero_update = record {
  update_id = 0;
  type = tg_update_unknown;
  message = zero_message;
  json = none;
}

-- `struct tga_call_send_message`, without `reply_markup`, which is NULL.
pub record TgaCallSendMessage : Type 0 where
  pub chat_id : ℤ
  pub text : String
  pub parse_mode : String
  pub disable_web_page_preview : Bool
  pub disable_notification : Bool
  pub reply_to_message_id : ℤ
