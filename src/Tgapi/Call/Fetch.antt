-- ===== src/Tgapi/Call/Fetch.antt =====
-- tgapi_call_get_updates (lib/tgapi.c) on a body that arrives as a whole.
use gnuweeb_bot.Common.{
  ℕ, ◌+◌, ◌-◌, ◌*◌, ◌%◌, ◌<◌, ◌≤◌, ◌≡◌, refl, ap, ◌∙◌, true, Option, none, some, List, [], arith,
  length, take, get_elem?,
}
use gnuweeb_bot.Common.Int.{ℤ, pos}
use gnuweeb_bot.CurlData.{CurlData, size_mod, tgapi_curl_write}
use gnuweeb_bot.CurlData.Append.{Text, unborn}
use gnuweeb_bot.CurlHandles.{
  CurlHandleList, HasRoom, gw_curl_thread_init, gw_curl_thread_init-HasRoom,
}
use gnuweeb_bot.Tgapi.{JsonC}
use gnuweeb_bot.Tgapi.Memory.{Memory}
use gnuweeb_bot.Tgapi.Parse.{Tokener, tgapi_parse_updates_len_max}
use gnuweeb_bot.Tgapi.Call.{
  CurlC, no_data, thread_init, get_with, performed, curl_http_get, parsed_body, with_body,
  tgapi_call_get_updates,
}
use gnuweeb_bot.Tgapi.Call.Deliver.{deliver, joined, Text-length, deliver-Text}

module _ {J H : Type 0} (json : JsonC J) (fuel : ℕ) (curl : CurlC H)
    (tokener : Option (List ℕ) → ℕ → Tokener J) where
  -- Where the thread has no handle yet and the list of handles has a free place, and where libcurl
  -- gives the body in pieces to the callback, for which there is memory, tgapi_call_get_updates
  -- records the new handle behind those recorded before, which stay, and parses exactly the pieces, one
  -- behind the other, with the NUL behind them; it leaves no buffer.
  pub tgapi_call_get_updates_lem :
      (token : List ℕ) (offset : ℤ) (cd : CurlHandleList H) (mem : Memory) (ch : H)
      (pieces : List (List ℕ)) (most : ℕ)
      → HasRoom cd
      → cd.nr_handles < cd.allocated
      → curl.current ≡ none
      → curl.curl_easy_init cd ≡ some ch
      → curl.found ≡ true
      → curl.curl_easy_perform ch
          (take 255 (curl.get_updates_url token offset))
          (tgapi_curl_write curl.found curl.junk)
          no_data
        ≡ deliver (tgapi_curl_write curl.found curl.junk) pieces no_data
      → 4096 ≤ most
      → (length (joined pieces) + 1) * 3 ≤ most
      → most * 3 + 8192 < size_mod
      → (body : CurlData) × (cd' : CurlHandleList H) × Text body (joined pieces)
        × (cd'.nr_handles ≡ cd.nr_handles + 1)
        × (get_elem? cd'.handles cd.nr_handles ≡ some ch)
        × ((i : ℕ) → i < cd.nr_handles → get_elem? cd'.handles i ≡ get_elem? cd.handles i)
        × (tgapi_call_get_updates json fuel curl tokener token offset cd mem
            ≡ parsed_body json fuel curl tokener cd' (
                tgapi_parse_updates_len_max json fuel
                  (tokener body.data' (length (joined pieces) + 1))
                  (size_mod - 1)
                  mem))
  unfolding tgapi_call_get_updates curl_http_get get_with with_body
  tgapi_call_get_updates_lem token offset cd mem ch pieces most room free_place fresh made found
        performs page needs fits =
      let url = take 255 (curl.get_updates_url token offset) in
      let (cd', starts, room', count, there, same) =
        gw_curl_thread_init-HasRoom ch curl.junk_handle curl.found cd room free_place in
      let (body, runs, text) =
        deliver-Text curl.junk pieces no_data [] most (unborn refl refl refl) (omega arith) page
          (omega arith) fits in
      let handle : thread_init curl cd ≡ some (some ch, cd') =
        ap (λ o. gw_curl_thread_init o (curl.curl_easy_init cd) curl.found curl.junk_handle cd)
          fresh
        ∙ ap (λ o. gw_curl_thread_init none o curl.found curl.junk_handle cd) made
        ∙ starts in
      let all : curl.curl_easy_perform ch url (tgapi_curl_write curl.found curl.junk) no_data
          ≡ (true, body) =
        performs ∙ ap (λ f. deliver (tgapi_curl_write f curl.junk) pieces no_data) found ∙ runs in
      let got : curl_http_get curl url no_data cd ≡ some (pos 0, body, cd') =
        ap (get_with curl url no_data) handle ∙ ap (λ r. some (performed curl cd' r)) all in
      let len : (body.len + 1) % size_mod ≡ length (joined pieces) + 1 =
        omega (arith, Text-length body (joined pieces) text) in
      (
        body,
        cd',
        text,
        count,
        there,
        same,
        ap (with_body json fuel curl tokener mem) got
            ∙ ap
                (λ (n : ℕ).
                  parsed_body json fuel curl tokener cd' (
                    tgapi_parse_updates_len_max json fuel (tokener body.data' n) (size_mod - 1)
                      mem))
                len,
      )
