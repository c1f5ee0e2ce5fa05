-- ===== src/CurlHandles/Tests.antt =====
-- A list of two places for handles (lib/curl.c), with a free place and without.
use gnuweeb_bot.Common.{ℕ, true, Option, some, [], ◌∷◌}
use gnuweeb_bot.CurlHandles.{CurlHandleList}
use gnuweeb_bot.Common.Int.{pos}
use gnuweeb_bot.CurlHandles.Global.{CurlEnv, Ready, gw_curl_global_init, gw_curl_global_init-Ready}

abbrev half : CurlHandleList ℕ
half = record { handles = 5 ∷ 0 ∷ []; allocated = 2; nr_handles = 1 }

abbrev full : CurlHandleList ℕ
full = record { handles = 5 ∷ 6 ∷ []; allocated = 2; nr_handles = 2 }

abbrev handle : Option ℕ
handle = some 7

-- Nothing fails.
abbrev env : CurlEnv ℕ
env = record {
  curl_global_all = 3;
  curl_global_init = λ flags. true;
  found = true;
  mutex_init = pos 0;
  found_handles = true;
  null = 0;
}

gw_curl_global_init-Ready_example : Ready [] (gw_curl_global_init env 0 [])
gw_curl_global_init-Ready_example = gw_curl_global_init-Ready env 0 []
