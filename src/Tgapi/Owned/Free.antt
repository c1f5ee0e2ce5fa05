-- ===== src/Tgapi/Owned/Free.antt =====
-- tgapi_free_message undoes tgj_get_message (lib/tgapi.c).
use gnuweeb_bot.Common.{
  ℕ, ◌≡◌, ◌≢◌, refl, sym, ap, ◌∙◌, inl, inr, Option, none, some, List, ◌∷◌, ◌++◌, ◌==◌,
  if◌then◌else◌, arith, Bool-cases,
}
use gnuweeb_bot.Common.Int.{ℤ, pos, is_zero}
use gnuweeb_bot.Tgapi.{JsonC, TgMessage, tg_msg_text}
use gnuweeb_bot.Tgapi.Memory.{Memory, free, free_opt}
use gnuweeb_bot.Tgapi.Object.{tgj_get_message}
use gnuweeb_bot.Tgapi.Release.{tgapi_free_message}
use gnuweeb_bot.Tgapi.Owned.{Owns, owns, fails, opt_list, owned_entities}
use gnuweeb_bot.Tgapi.Owned.Message.{tgj_get_message-Owns}

free_opt_lem :
    (a : Option ℕ) (mem : Memory) (rest : List ℕ)
    → mem.live ≡ opt_list a ++ rest
    → (free_opt a mem).live ≡ rest
unfolding free_opt free
free_opt_lem none mem rest h = h
free_opt_lem (some a) mem rest h = rw h (ground arith)

free_entities :
    (msg : TgMessage) (mem : Memory) (rest : List ℕ)
    → mem.live ≡ owned_entities msg ++ rest
    → (if msg.type == tg_msg_text then free_opt msg.entities mem else mem).live ≡ rest
free_entities msg mem rest h = elim (Bool-cases (msg.type == tg_msg_text)) [
  | inl text ↦
      let owned : mem.live ≡ opt_list msg.entities ++ rest = h ∙ rw text refl in
      rw text (free_opt_lem msg.entities mem rest owned)
  | inr other ↦ let owned : mem.live ≡ rest = h ∙ rw other refl in rw other owned
]

free_boxes :
    (mem : Memory) (from chat : ℕ) (rest : List ℕ)
    → from ≢ chat
    → mem.live ≡ chat ∷ from ∷ rest
    → (free_opt (some chat) (free_opt (some from) mem)).live ≡ rest
unfolding free_opt free
free_boxes mem from chat rest apart live = rw live (ground arith)

-- What tgj_get_message has added to the blocks in use, tgapi_free_message gives back, and no more.
pub tgapi_free_message-Owns :
    (mem mem' : Memory) (msg : TgMessage)
    → Owns mem (pos 0, msg, mem')
    → (tgapi_free_message msg mem').live ≡ mem.live
unfolding tgapi_free_message
tgapi_free_message-Owns mem mem' msg (fails ret m mem2 e bad n l r) = absurd (cc)
tgapi_free_message-Owns mem mem' msg (owns m mem2 from chat e f c apart l r) =
    let same_msg : m ≡ msg = cc in
    let same_mem : mem2 ≡ mem' = cc in
    let f' : msg.from ≡ some from = ap (λ (t : TgMessage). t.from) (sym same_msg) ∙ f in
    let c' : msg.chat ≡ some chat = ap (λ (t : TgMessage). t.chat) (sym same_msg) ∙ c in
    let l' : mem'.live ≡ owned_entities msg ++ chat.at ∷ from.at ∷ mem.live =
      ap (λ (t : Memory). t.live) (sym same_mem)
      ∙ l
      ∙ ap (λ (t : TgMessage). owned_entities t ++ chat.at ∷ from.at ∷ mem.live) same_msg in
    rw (f', c')
      (free_boxes (if msg.type == tg_msg_text then free_opt msg.entities mem' else mem') from.at
        chat.at mem.live apart (free_entities msg mem' _ l'))

balanced :
    (mem : Memory) (out : ℤ × TgMessage × Memory)
    → Owns mem out
    → (if is_zero out.0 then (tgapi_free_message out.1 out.2).live else out.2.live) ≡ mem.live
balanced mem out (fails ret m mem2 e bad n l r) =
    ap
      (λ (t : ℤ × TgMessage × Memory).
        if is_zero t.0 then (tgapi_free_message t.1 t.2).live else t.2.live)
      e
    ∙ rw bad l
balanced mem out (owns m mem2 from chat e f c apart l r) =
    ap
      (λ (t : ℤ × TgMessage × Memory).
        if is_zero t.0 then (tgapi_free_message t.1 t.2).live else t.2.live)
      e
    ∙ tgapi_free_message-Owns mem mem2 m (owns m mem2 from chat refl f c apart l r)

-- On a message without entities, tgj_get_message either succeeds, and tgapi_free_message then leaves
-- exactly the blocks in use that were before, or it fails and has left these blocks by itself.
pub tgj_get_message_lem :
    {J : Type 0} (json : JsonC J) (msg : TgMessage) (jmsg : J) (mem : Memory)
    → msg.entities ≡ none
    → (if is_zero (tgj_get_message json msg jmsg mem).0
        then (tgapi_free_message
            (tgj_get_message json msg jmsg mem).1
            (tgj_get_message json msg jmsg mem).2).live
        else (tgj_get_message json msg jmsg mem).2.live)
      ≡ mem.live
tgj_get_message_lem json msg jmsg mem empty =
    balanced mem (tgj_get_message json msg jmsg mem) (tgj_get_message-Owns json msg jmsg mem empty)
