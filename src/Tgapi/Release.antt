-- ===== src/Tgapi/Release.antt =====
-- tgapi_free_message, tgapi_free_update and tgapi_inc_ref_update (lib/tgapi.c)
use gnuweeb_bot.Common.{ℕ, none, some, ◌==◌, ltb, if◌then◌else◌}
use gnuweeb_bot.Tgapi.{JsonC, TgMessage, TgUpdate, tg_msg_text, tg_update_message}
use gnuweeb_bot.Tgapi.Object.{box_at}
use gnuweeb_bot.Tgapi.Memory.{Memory, free_opt, json_object_get, json_object_put}

unfoldable pub tgapi_free_message : TgMessage → Memory → Memory
unfolding free_opt
tgapi_free_message msg mem =
    let mem1 = if msg.type == tg_msg_text then free_opt msg.entities mem else mem in
    free_opt (box_at msg.chat) (free_opt (box_at msg.from) mem1)

module _ {J : Type 0} (json : JsonC J) where
  unfoldable pub tgapi_inc_ref_update : TgUpdate J → Memory → Memory
  unfolding json_object_get
  tgapi_inc_ref_update update mem = elim (update.json) [
    | none ↦ mem
    | some obj ↦ json_object_get (json.address obj) mem
  ]

  -- After `json_object_put`, whose result comes first.
  unfoldable pub after_put : TgUpdate J → ℕ × Memory → TgUpdate J × Memory
  unfolding tgapi_free_message
  after_put update (put, mem) = if ltb 0 put then (update, mem) else (
    record update { json = none },
    if update.type == tg_update_message then tgapi_free_message update.message mem else mem,
  )

  unfoldable pub tgapi_free_update : TgUpdate J → Memory → TgUpdate J × Memory
  unfolding after_put json_object_put
  tgapi_free_update update mem = elim (update.json) [
    | none ↦ (update, mem)
    | some obj ↦
        after_put update
          (json.put_result (mem.refs (json.address obj)), json_object_put (json.address obj) mem)
  ]
