-- ===== src/Tgapi/Leak.antt =====
-- tgapi_free_update after tgapi_parse_update_len (lib/tgapi.c).
use gnuweeb_bot.Common.{
  ℕ, ◌≡◌, refl, sym, ap, ◌∙◌, false, Option, none, some, arith, Bool-cases, inl, inr,
}
use gnuweeb_bot.Common.Int.{ℤ, pos, is_zero}
use gnuweeb_bot.Common.Errno.{enoent, enomem}
use gnuweeb_bot.Tgapi.{
  JsonC, TgMessage, TgUpdate, tg_update_unknown, TokenerError, json_tokener_success,
  json_tokener_continue, json_tokener_failed,
}
use gnuweeb_bot.Tgapi.Memory.{Memory, json_object_put}
use gnuweeb_bot.Tgapi.Object.{tgj_get_update, tgj_get_message, with_message}
use gnuweeb_bot.Tgapi.Release.{tgapi_free_update, after_put}
use gnuweeb_bot.Tgapi.Parse.{
  Tokener, parse_json, parse_laps, after_laps, hold, as_pointer, keep_update, parsed_update,
  tgapi_parse_update_len,
}
use gnuweeb_bot.Tgapi.Owned.{Owns, owns, fails}
use gnuweeb_bot.Tgapi.Owned.Message.{tgj_get_message-Owns}
use gnuweeb_bot.Tgapi.Updates.{same_json}

module _ {J : Type 0} (json : JsonC J) where
  Owns-refs :
      (mem mem' : Memory) (ret : ℤ) (msg : TgMessage)
      → Owns mem (ret, msg, mem')
      → mem'.refs ≡ mem.refs
  Owns-refs mem mem' ret msg (owns m m' from chat e f c apart l r) =
      ap (λ (t : ℤ × TgMessage × Memory). t.2.refs) e ∙ r
  Owns-refs mem mem' ret msg (fails status m m' e bad n l r) =
      ap (λ (t : ℤ × TgMessage × Memory). t.2.refs) e ∙ r

  tgj_get_update-refs :
      (update : TgUpdate J) (jobj : J) (mem : Memory)
      → update.message.entities ≡ none
      → (tgj_get_update json update jobj mem).2.refs ≡ mem.refs
  unfolding tgj_get_update with_message
  tgj_get_update-refs update jobj mem empty =
      by_keys (json.json_object_object_get_ex jobj "update_id")
        (json.json_object_object_get_ex jobj "message")
    where
      by_keys :
          (id msg : Option J)
          → (elim id as (λ x. ℤ × TgUpdate J × Memory) [
            | none ↦ (enoent, update, mem)
            | some jid ↦
                let update1 : TgUpdate J = record update {
                  update_id = json.json_object_get_uint64 jid;
                } in
                elim msg [
                  | none ↦ (pos 0, record update1 { type = tg_update_unknown }, mem)
                  | some res ↦
                      with_message json update1 (tgj_get_message json update1.message res mem)
                ]
          ]).2.refs
            ≡ mem.refs
      by_keys none msg = refl
      by_keys (some jid) none = refl
      by_keys (some jid) (some res) =
          let out = tgj_get_message json update.message res mem in
          Owns-refs mem out.2 out.0 out.1 (tgj_get_message-Owns json update.message res mem empty)

  laps_ref :
      (laps : Option (TokenerError × J)) (mem mem1 : Memory) (jobj : J)
      → after_laps json laps mem ≡ some (pos 0, some jobj, mem1)
      → mem1.refs (json.address jobj) ≡ 1
  unfolding after_laps hold
  laps_ref none mem mem1 jobj e = absurd (cc)
  laps_ref (some (json_tokener_success, obj)) mem mem1 jobj e =
      let same : obj ≡ jobj = cc in
      let held : hold json obj mem ≡ mem1 = cc in
      let one : (hold json obj mem).refs (json.address obj) ≡ 1 = ground arith in
      ap (λ (m : Memory). m.refs (json.address jobj)) (sym held)
      ∙ ap (λ (o : J). (hold json obj mem).refs (json.address o)) (sym same)
      ∙ one
  laps_ref (some (json_tokener_continue, obj)) mem mem1 jobj e = absurd (cc)
  laps_ref (some (json_tokener_failed, obj)) mem mem1 jobj e = absurd (cc)

  -- A successful parse_json leaves one reference to the object.
  one_ref :
      (fuel : ℕ) (tok : Tokener J) (mem mem1 : Memory) (jobj : J)
      → parse_json json fuel tok mem ≡ some (pos 0, some jobj, mem1)
      → mem1.refs (json.address jobj) ≡ 1
  unfolding parse_json
  one_ref fuel tok mem mem1 jobj e = elim (Bool-cases tok.made) [
    | inl made ↦
        laps_ref (parse_laps json fuel tok 0) mem mem1 jobj (sym (rw (made, parse_json) refl) ∙ e)
    | inr full ↦
        let fails : parse_json json fuel tok mem ≡ some (enomem, none, mem) =
          rw (full, parse_json) refl in
        absurd (cc)
  ]

  last_put :
      (update : TgUpdate J) (mem : Memory) (jobj : J)
      → json.put_result 1 ≡ 1
      → update.json ≡ some jobj
      → mem.refs (json.address jobj) ≡ 1
      → ((tgapi_free_update json update mem).1.live ≡ mem.live)
        × ((tgapi_free_update json update mem).1.refs (json.address jobj) ≡ 0)
  unfolding tgapi_free_update after_put json_object_put
  last_put update mem jobj freed holds one =
      rw (holds, one, freed, tgapi_free_update) (ground arith)

  -- An update that tgapi_parse_update_len has parsed with success holds the only reference to its
  -- JSON object. Where json_object_put returns 1 for the last reference, tgapi_free_update drops it,
  -- and with it the texts, but gives no block back.
  pub tgapi_free_update-parsed :
      (fuel : ℕ) (tok : Tokener J) (before update : TgUpdate J) (mem mem1 mem' : Memory) (jobj : J)
      → json.put_result 1 ≡ 1
      → before.message.entities ≡ none
      → json.is_null jobj ≡ false
      → parse_json json fuel tok mem ≡ some (pos 0, some jobj, mem1)
      → tgapi_parse_update_len json fuel before tok mem ≡ some (pos 0, update, mem')
      → ((tgapi_free_update json update mem').1.live ≡ mem'.live)
        × ((tgapi_free_update json update mem').1.refs (json.address jobj) ≡ 0)
  unfolding tgapi_parse_update_len parsed_update keep_update
  tgapi_free_update-parsed fuel tok before update mem mem1 mem' jobj freed empty real parses e =
      let held : TgUpdate J = record before { json = as_pointer json jobj } in
      let out = tgj_get_update json held jobj mem1 in
      let kept : some (keep_update json held out) ≡ some (pos 0, update, mem') =
        sym (ap (parsed_update json before) parses ∙ refl) ∙ e in
      elim (Bool-cases (is_zero out.0)) [
        | inl ok ↦
            let got : some (keep_update json held out) ≡ some (pos 0, out.1, out.2) = rw ok refl in
            let same : out.1 ≡ update = cc in
            let left : out.2 ≡ mem' = cc in
            let refs : mem'.refs ≡ mem1.refs =
              ap (λ (m : Memory). m.refs) (sym left) ∙ tgj_get_update-refs held jobj mem1 empty in
            let obj : update.json ≡ some jobj =
              ap (λ (u : TgUpdate J). u.json) (sym same)
              ∙ same_json json held out.1 jobj mem1 out.2 out.0 refl
              ∙ rw real refl in
            last_put update mem' jobj freed obj (
              ap (λ (f : ℕ → ℕ). f (json.address jobj)) refs
              ∙ one_ref fuel tok mem mem1 jobj parses)
        | inr bad ↦
            let got : (keep_update json held out).0 ≡ out.0 = rw bad refl in
            let zero_ret : out.0 ≡ pos 0 = cc in absurd (cc)
      ]
