-- ===== src/Tgapi/Call.antt =====
-- curl_http_get, tgapi_call_get_updates and tgapi_call_send_message (lib/tgapi.c). `H` is a handle of
-- libcurl, which is a parameter.
pub mod Deliver
pub mod Fetch
mod Tests
use Prim.Native.String.{String}
use gnuweeb_bot.Common.{
  ℕ, ◌+◌, ◌-◌, ◌%◌, ◌*◌, Bool, true, false, Option, none, some, List, [], ◌∷◌, if◌then◌else◌, take,
}
use gnuweeb_bot.Common.Int.{ℤ, pos, negsuc, is_zero}
use gnuweeb_bot.Common.Errno.{enomem}
use gnuweeb_bot.CurlData.{CurlData, size_mod, tgapi_curl_write}
use gnuweeb_bot.CurlHandles.{CurlHandleList, gw_curl_thread_init}
use gnuweeb_bot.Tgapi.{Text, JsonC, TgaCallSendMessage}
use gnuweeb_bot.Tgapi.Memory.{Memory}
use gnuweeb_bot.Tgapi.Parse.{Tokener, TgUpdates, tgapi_parse_updates_len_max}

-- `struct curl_data data = { 0 }`
abbrev pub no_data : CurlData
no_data = record { data' = none; len = 0; allocated = 0; err = pos 0 }

-- The callback that collects a body.
abbrev pub WriteFunction : Type 0
WriteFunction = Text → CurlData → ℕ × CurlData

-- libcurl and the C library: `curl_easy_init` may depend on the handles that there are;
-- `curl_easy_perform` gets the handle, the URL, the callback and its data, and says whether it
-- returned CURLE_OK. `snprintf` formats the URLs, which are cut to their buffers below. `found` says
-- whether `malloc` and `realloc` succeed, `junk` is what new memory holds; `current` is the handle of
-- the thread.
pub record CurlC (H : Type 0) : Type 0 where
  pub curl_easy_init : CurlHandleList H → Option H
  pub curl_easy_perform : H → Text → WriteFunction → CurlData → Bool × CurlData
  pub curl_easy_escape : H → String → Option Text
  pub get_updates_url : (token : Text) (offset : ℤ) → Text
  pub send_message_url : (token : Text) (chat_id : ℤ) (escaped : Text) (reply_to : ℤ) → Text
  pub current : Option H
  pub found : Bool
  pub junk : ℕ
  pub junk_handle : H

module _ {H : Type 0} (curl : CurlC H) where
  abbrev pub thread_init : CurlHandleList H → Option (Option H × CurlHandleList H)
  unfolding gw_curl_thread_init
  thread_init cd =
      gw_curl_thread_init curl.current (curl.curl_easy_init cd) curl.found curl.junk_handle cd

  -- After curl_easy_perform.
  abbrev pub performed : CurlHandleList H → Bool × CurlData → ℤ × CurlData × CurlHandleList H
  performed cd (ok, body) = (if ok then pos 0 else negsuc 0, body, cd)

  unfoldable pub get_with :
      Text
      → CurlData
      → Option (Option H × CurlHandleList H)
      → Option (ℤ × CurlData × CurlHandleList H)
  unfolding tgapi_curl_write
  get_with url body none = none
  get_with url body (some (none, cd)) = some (enomem, body, cd)
  get_with url body (some (some ch, cd)) =
      some
        (performed cd (curl.curl_easy_perform ch url (tgapi_curl_write curl.found curl.junk) body))

  -- `none` is a write past the list of handles.
  unfoldable pub curl_http_get :
      Text → CurlData → CurlHandleList H → Option (ℤ × CurlData × CurlHandleList H)
  unfolding thread_init get_with
  curl_http_get url body cd = get_with url body (thread_init cd)

module _ {J H : Type 0} (json : JsonC J) (fuel : ℕ) (curl : CurlC H)
    (tokener : Option Text → ℕ → Tokener J) where
  -- The status, the updates, the buffer of the body if it is still allocated, the handles and the
  -- memory of the updates.
  abbrev pub Called : Type 0
  Called = Option (ℤ × Option (TgUpdates J) × Option Text × CurlHandleList H × Memory)

  -- After the parser, with `free(data.data)`.
  abbrev pub parsed_body : CurlHandleList H → Option (ℤ × Option (TgUpdates J) × Memory) → Called
  parsed_body cd none = none
  parsed_body cd (some (ret, updates, mem)) = some (ret, updates, none, cd, mem)

  -- After curl_http_get.
  unfoldable pub with_body : Memory → Option (ℤ × CurlData × CurlHandleList H) → Called
  unfolding tgapi_parse_updates_len_max
  with_body mem none = none
  with_body mem (some (ret, body, cd)) =
      if is_zero ret
      then parsed_body cd (
          tgapi_parse_updates_len_max json fuel (tokener body.data' ((body.len + 1) % size_mod))
            (size_mod - 1) mem)
      else some (ret, none, body.data', cd, mem)

  unfoldable pub tgapi_call_get_updates :
      (token : Text) (offset : ℤ) → CurlHandleList H → Memory → Called
  unfolding curl_http_get with_body
  tgapi_call_get_updates token offset cd mem =
      with_body mem (curl_http_get curl (take 255 (curl.get_updates_url token offset)) no_data cd)

module _ {H : Type 0} (curl : CurlC H) where
  -- After the last curl_http_get: the status, the buffer if it is still allocated, the handles.
  abbrev pub sent :
      Option (ℤ × CurlData × CurlHandleList H) → Option (ℤ × Option Text × CurlHandleList H)
  sent none = none
  sent (some (ret, body, cd)) =
      some (if is_zero ret then (pos 0, none, cd) else (ret, body.data', cd))

  unfoldable pub send_escaped :
      (token : Text)
      → TgaCallSendMessage
      → CurlHandleList H
      → Option Text
      → Option (ℤ × Option Text × CurlHandleList H)
  unfolding curl_http_get
  send_escaped token call cd none = some (enomem, none, cd)
  send_escaped token call cd (some escaped) = sent (
      curl_http_get curl
        (take (4096 * 3 + 127)
          (curl.send_message_url token call.chat_id escaped call.reply_to_message_id))
        no_data cd)

  unfoldable pub send_with :
      (token : Text)
      → TgaCallSendMessage
      → Option (Option H × CurlHandleList H)
      → Option (ℤ × Option Text × CurlHandleList H)
  unfolding send_escaped
  send_with token call none = none
  send_with token call (some (none, cd)) = some (enomem, none, cd)
  send_with token call (some (some ch, cd)) =
      send_escaped token call cd (curl.curl_easy_escape ch call.text)

  unfoldable pub tgapi_call_send_message :
      (token : Text)
      → TgaCallSendMessage
      → CurlHandleList H
      → Option (ℤ × Option Text × CurlHandleList H)
  unfolding send_with thread_init
  tgapi_call_send_message token call cd = send_with token call (thread_init curl cd)
