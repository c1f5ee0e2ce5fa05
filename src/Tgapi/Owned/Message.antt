-- ===== src/Tgapi/Owned/Message.antt =====
-- tgj_get_message (lib/tgapi.c) keeps account of its blocks on every path.
use Prim.Native.String.{String}
use mathlib.Core.Path.{subst}
use gnuweeb_bot.Common.{
  ℕ, ◌<◌, ◌≡◌, ◌≢◌, refl, sym, ap, ◌∙◌, inl, inr, Bool, true, false, Option, none, some, List, [],
  ◌∷◌, ◌++◌, ◌==◌, if◌then◌else◌, arith, Option-cases,
}
use gnuweeb_bot.Common.Int.{ℤ, pos}
use gnuweeb_bot.Common.Errno.{enoent}
use gnuweeb_bot.Common.Cast.{int_of_size}
use gnuweeb_bot.Tgapi.{JsonC, TgUser, TgChat, Box, TgMessage, tg_msg_text}
use gnuweeb_bot.Tgapi.Memory.{Memory}
use gnuweeb_bot.Tgapi.Object.{
  with_entities, tgj_get_user, tgj_get_chat, tgj_get_user_and_alloc, tgj_get_chat_and_alloc,
  tgj_get_entities_and_alloc, tgj_arrange_message_variant, variant_of, variants, message_variant,
  with_chat, message_chat, with_from, message_from, tgj_get_message,
}
use gnuweeb_bot.Tgapi.Owned.{
  boxed, missed, Owns, owns, fails, Arranged, arranged, refused, owned_entities, fill_box-Boxed,
  fill_entities-Arranged, err_free_from_lem, err_free_chat_lem,
}

abbrev all_not_text : List (String × ℕ) → Bool
all_not_text [] = true
all_not_text ((key, type) ∷ rest) = if type == tg_msg_text then false else all_not_text rest

same_boxes :
    {mem : Memory} {out : ℤ × TgMessage × Memory} (msg msg' : TgMessage)
    → msg.from ≡ msg'.from
    → msg.chat ≡ msg'.chat
    → Arranged msg mem out
    → Arranged msg' mem out
same_boxes msg msg' f c (arranged m mem' e f' c' l r) = arranged m mem' e (f' ∙ f) (c' ∙ c) l r
same_boxes msg msg' f c (refused ret m mem' e bad f' c' n l r) =
    refused ret m mem' e bad (f' ∙ f) (c' ∙ c) n l r

module _ {J : Type 0} (json : JsonC J) where
  variant_not_text :
      (table : List (String × ℕ)) (jmsg : J)
      → all_not_text table ≡ true
      → (variant_of json table jmsg == tg_msg_text) ≡ false
  variant_not_text [] jmsg h = refl
  variant_not_text ((key, type) ∷ rest) jmsg h = ground (arith, variant_not_text rest jmsg)

  arrange-Arranged :
      (msg : TgMessage) (jmsg : J) (mem : Memory)
      → msg.entities ≡ none
      → Arranged msg mem (tgj_arrange_message_variant json msg jmsg mem)
  unfolding tgj_arrange_message_variant tgj_get_entities_and_alloc
  arrange-Arranged msg jmsg mem empty =
      by_text (json.json_object_object_get_ex jmsg "text")
        (json.json_object_object_get_ex jmsg "entities")
    where
      by_text :
          (text ents : Option J)
          → Arranged msg mem (elim text [
            | none ↦ (pos 0, record msg { type = variant_of json variants jmsg }, mem)
            | some res ↦
                let msg' : TgMessage = record msg {
                  type = tg_msg_text;
                  text = json.json_object_get_string res;
                } in
                elim ents [
                  | none ↦ (pos 0, msg', mem)
                  | some jent ↦ with_entities msg' (tgj_get_entities_and_alloc json jent mem)
                ]
          ])
      by_text none ents =
          arranged (record msg { type = variant_of json variants jmsg }) mem refl refl refl
            (rw (variant_not_text variants jmsg refl) refl) refl
      by_text (some res) none =
          arranged (record msg { type = tg_msg_text; text = json.json_object_get_string res }) mem
            refl refl refl (rw empty refl) refl
      by_text (some res) (some jent) = same_boxes _ msg refl refl (
          fill_entities-Arranged
            (record msg { type = tg_msg_text; text = json.json_object_get_string res })
            (int_of_size (json.json_object_array_length jent)) mem refl empty)

  -- From here on the memory before is `mem0`: `mem` has the blocks of the message on top.
  variant-Owns :
      (mem0 mem : Memory) (msg : TgMessage) (jmsg : J) (from : Box TgUser) (chat : Box TgChat)
      → msg.entities ≡ none
      → msg.from ≡ some from
      → msg.chat ≡ some chat
      → from.at ≢ chat.at
      → mem.live ≡ chat.at ∷ from.at ∷ mem0.live
      → mem.refs ≡ mem0.refs
      → Owns mem0 (message_variant json msg jmsg mem)
  unfolding message_variant
  variant-Owns mem0 mem msg jmsg from chat empty f c apart live refs =
      elim (arrange-Arranged msg jmsg mem empty) [
        | arranged msg' mem' e f' c' l r ↦
            owns msg' mem' from chat (rw e refl) (f' ∙ f) (c' ∙ c) apart
              (l ∙ ap (λ (t : List ℕ). owned_entities msg' ++ t) live) (r ∙ refs)
        | refused ret msg' mem' e bad f' c' n l r ↦
            fails ret (record msg' { chat = none; from = none }) (record mem' { live = mem0.live })
              (rw (e, bad)
                (err_free_chat_lem ret msg' mem' from chat mem0.live (f' ∙ f) (c' ∙ c) (l ∙ live)))
              bad n refl (r ∙ refs)
      ]

  chat-Owns :
      (mem0 mem : Memory) (msg : TgMessage) (jmsg : J) (from : Box TgUser)
      → msg.entities ≡ none
      → msg.from ≡ some from
      → from.at < mem.calls
      → mem.live ≡ from.at ∷ mem0.live
      → mem.refs ≡ mem0.refs
      → Owns mem0 (message_chat json msg jmsg mem)
  unfolding message_chat with_chat tgj_get_chat_and_alloc
  chat-Owns mem0 mem msg jmsg from empty f old live refs =
      elim (Option-cases (json.json_object_object_get_ex jmsg "chat")) [
        | inl gone ↦
            fails enoent (record msg { from = none }) (record mem { live = mem0.live })
              (rw (gone, message_chat) (err_free_from_lem enoent msg mem from mem0.live f live))
              refl empty refl refs
        | inr (res, there) ↦ elim (fill_box-Boxed (tgj_get_chat json res) mem) [
          | missed ret mem' e bad l r ↦
              fails ret (record msg { from = none }) (record mem' { live = mem0.live })
                (rw (there, message_chat)
                  (ap (with_chat json msg jmsg) e
                    ∙ rw bad (err_free_from_lem ret msg mem' from mem0.live f (l ∙ live))))
                bad empty refl (r ∙ refs)
          | boxed value mem' e calls l r ↦
              let chat : Box TgChat = record { at = mem.calls; value = value } in
              rw (there, message_chat)
                (subst (λ o. Owns mem0 o) (sym (ap (with_chat json msg jmsg) e))
                  (variant-Owns mem0 mem' (record msg { chat = some chat }) jmsg from chat empty f
                    refl (λ same. omega arith) (l ∙ ap (λ (t : List ℕ). mem.calls ∷ t) live)
                    (r ∙ refs)))
        ]
      ]

  from-Owns :
      (mem : Memory) (msg : TgMessage) (jmsg : J)
      → msg.entities ≡ none
      → Owns mem (message_from json msg jmsg mem)
  unfolding message_from with_from tgj_get_user_and_alloc
  from-Owns mem msg jmsg empty = elim (Option-cases (json.json_object_object_get_ex jmsg "from")) [
    | inl gone ↦
        fails enoent (record msg { message_id = 0 }) mem (rw (gone, message_from) refl) refl empty
          refl refl
    | inr (res, there) ↦ elim (fill_box-Boxed (tgj_get_user json res) mem) [
      | missed ret mem' e bad l r ↦
          fails ret msg mem'
            (rw (there, message_from) (ap (with_from json msg jmsg) e ∙ rw bad refl)) bad empty l r
      | boxed value mem' e calls l r ↦
          let from : Box TgUser = record { at = mem.calls; value = value } in
          rw (there, message_from)
            (subst (λ o. Owns mem o) (sym (ap (with_from json msg jmsg) e))
              (chat-Owns mem mem' (record msg { from = some from }) jmsg from empty refl
                (omega arith) l r))
    ]
  ]

  -- tgj_get_message, on a message without entities: on success the message has a sender and a chat,
  -- and exactly its blocks have been added to those in use; on failure none has been, and the message
  -- still has no entities. The references to objects of json-c stay.
  pub tgj_get_message-Owns :
      (msg : TgMessage) (jmsg : J) (mem : Memory)
      → msg.entities ≡ none
      → Owns mem (tgj_get_message json msg jmsg mem)
  unfolding tgj_get_message
  tgj_get_message-Owns msg jmsg mem empty =
      elim (Option-cases (json.json_object_object_get_ex jmsg "message_id")) [
        | inl gone ↦ fails enoent msg mem (rw (gone, tgj_get_message) refl) refl empty refl refl
        | inr (jid, has_id) ↦
            let msg1 : TgMessage = record msg { message_id = json.json_object_get_uint64 jid } in
            elim (Option-cases (json.json_object_object_get_ex jmsg "date")) [
              | inl gone ↦
                  fails enoent msg1 mem (rw (has_id, gone, tgj_get_message) refl) refl empty refl
                    refl
              | inr (jdate, has_date) ↦
                  rw (has_id, has_date, tgj_get_message)
                    (from-Owns mem (record msg1 { date = json.json_object_get_uint64 jdate }) jmsg
                      empty)
            ]
      ]
