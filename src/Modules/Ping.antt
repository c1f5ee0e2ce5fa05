-- ===== src/Modules/Ping.antt =====
-- modules/ping/ping.c: the module that answers /ping, .ping and !ping.
use gnuweeb_bot.Common.{
  ℕ, ◌≡◌, ◌≢◌, refl, Bool, true, false, not, ◌&&◌, ◌||◌, Option, none, some, [], ◌∷◌, ◌==◌, bit_and,
  if◌then◌else◌, arith, Bool-cases, inl, inr,
}
use gnuweeb_bot.Common.Cast.{int64_of_u64}
use gnuweeb_bot.Common.Int.{ℤ, pos}
use gnuweeb_bot.Tgapi.{
  TgaCallSendMessage, Text, same_text, Box, TgChat, TgMessage, TgUpdate, tg_update_message,
  tg_msg_text,
}
use gnuweeb_bot.Modules.{Hook}

-- The characters of "ping".
abbrev pub ping_text : Text
ping_text = 112 ∷ 105 ∷ 110 ∷ 103 ∷ []

-- `text[0] == '/' || text[0] == '!' || text[0] == '.'`
abbrev pub is_prefix : ℕ → Bool
is_prefix c = (c == 47) || ((c == 33) || (c == 46))

abbrev pub pong : TgChat → TgMessage → TgaCallSendMessage
pong chat msg = record {
  chat_id = chat.id;
  text = "Pong!";
  parse_mode = "";
  disable_web_page_preview = true;
  disable_notification = true;
  reply_to_message_id = int64_of_u64 msg.message_id;
}

module _ {E : Type 0} (tgapi_call_send_message : TgaCallSendMessage → Hook E) where
  -- `__ping_handle`; `none` is the use of a chat that is NULL.
  abbrev pub send_pong : Option (Box TgChat) → TgMessage → E → Option (ℤ × E)
  send_pong none msg world = none
  send_pong (some chat) msg world = some (tgapi_call_send_message (pong chat.value msg) world)

  -- From the test of the text on. The first character of an empty text is its NUL.
  unfoldable pub answer : Option Text → TgMessage → E → Option (ℤ × E)
  answer none msg world = some (pos 0, world)
  answer (some []) msg world = some (pos 0, world)
  answer (some (c ∷ rest)) msg world =
      if not (is_prefix c)
      then some (pos 0, world)
      else if same_text rest ping_text
      then send_pong msg.chat msg world
      else some (pos 0, world)

  -- `none` is also the failure of the assertion.
  unfoldable pub ping_handle : {J : Type 0} → TgUpdate J → E → Option (ℤ × E)
  unfolding answer
  ping_handle up world =
      if bit_and up.type tg_update_message == 0
      then none
      else if not (up.type == tg_update_message)
      then some (pos 0, world)
      else if not (up.message.type == tg_msg_text)
      then some (pos 0, world)
      else answer up.message.text up.message world

-- The texts that the module answers.
abbrev pub is_command : Option Text → Bool
is_command none = false
is_command (some text) =
    same_text text (47 ∷ ping_text)
    || (same_text text (33 ∷ ping_text) || same_text text (46 ∷ ping_text))

module _ {E : Type 0} (tgapi_call_send_message : TgaCallSendMessage → Hook E) where
  answer_lem :
      (text : Option Text) (msg : TgMessage) (world : E)
      → answer tgapi_call_send_message text msg world ≡ (
          if is_command text
          then send_pong tgapi_call_send_message msg.chat msg world
          else some (pos 0, world))
  unfolding answer
  answer_lem none msg world = refl
  answer_lem (some []) msg world = refl
  answer_lem (some (c ∷ rest)) msg world = elim (Bool-cases (same_text rest ping_text)) [
    | inl same ↦ rw same (ground arith)
    | inr other ↦ rw other (ground arith)
  ]

  -- For an update whose type has the bit of messages, and whose message has a chat, the assertion of
  -- ping_handle holds, and it answers exactly a message update that holds one of the texts /ping,
  -- !ping and .ping, in that chat; anything else it ignores with status zero.
  pub ping_handle_lem :
      {J : Type 0} (up : TgUpdate J) (chat : Box TgChat) (world : E)
      → bit_and up.type tg_update_message ≢ 0
      → up.message.chat ≡ some chat
      → ping_handle tgapi_call_send_message up world
        ≡ some (
            if (up.type == tg_update_message)
              && ((up.message.type == tg_msg_text) && is_command up.message.text)
            then tgapi_call_send_message (pong chat.value up.message) world
            else (pos 0, world))
  unfolding ping_handle
  ping_handle_lem up chat world h there =
      let sent : send_pong tgapi_call_send_message up.message.chat up.message world
          ≡ some (tgapi_call_send_message (pong chat.value up.message) world) =
        rw there refl in
      ground (arith, answer_lem up.message.text up.message world)
