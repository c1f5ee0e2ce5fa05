-- ===== src/CurlData/Tests.antt =====
-- The buffer of a response at work (lib/tgapi.c): "ab" in three bytes, and one more.
use gnuweeb_bot.Common.{ℕ, ◌≡◌, refl, true, some, List, [], ◌∷◌, arith}
use gnuweeb_bot.Common.Int.{pos}
use gnuweeb_bot.CurlData.{CurlData, tgapi_curl_write}
use gnuweeb_bot.CurlData.Append.{Text, written, tgapi_curl_write-Text}

abbrev two_bytes : CurlData
two_bytes = record { data' = some (97 ∷ 98 ∷ 0 ∷ []); len = 2; allocated = 3; err = pos 0 }

abbrev third : List ℕ
third = 99 ∷ []

two_bytes-Text : Text two_bytes (97 ∷ 98 ∷ [])
two_bytes-Text = written [] refl refl refl

tgapi_curl_write-Text_example :
    ((tgapi_curl_write true 7 third two_bytes).0 ≡ 1)
    × Text (tgapi_curl_write true 7 third two_bytes).1 (97 ∷ 98 ∷ 99 ∷ [])
tgapi_curl_write-Text_example =
    tgapi_curl_write-Text 7 two_bytes (97 ∷ 98 ∷ []) third two_bytes-Text (omega arith)

grown : (tgapi_curl_write true 7 third two_bytes).1.allocated ≡ 10
unfolding tgapi_curl_write
grown = refl
