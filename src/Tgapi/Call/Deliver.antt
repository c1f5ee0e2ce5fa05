-- ===== src/Tgapi/Call/Deliver.antt =====
-- What a body that arrives in pieces leaves in the buffer of tgapi_curl_write (lib/tgapi.c).
use mathlib.Core.Path.{subst}
use gnuweeb_bot.Common.{
  ℕ, ◌+◌, ◌*◌, ◌<◌, ◌≤◌, ◌≡◌, refl, sym, ap, ◌∙◌, Bool, true, false, Option, none, some, List, [],
  ◌∷◌, ◌++◌, ◌==◌, if◌then◌else◌, arith, length, length-append, append_assoc, append-nil, replicate,
}
use gnuweeb_bot.CurlData.{
  CurlData, size_mod, store_bytes, grow_and_store, write_to, tgapi_curl_write,
}
use gnuweeb_bot.CurlData.Append.{Text, unborn, written, tgapi_curl_write-Text}
use gnuweeb_bot.Tgapi.Call.{WriteFunction}

-- The pieces are given to the callback in order, until it does not take all of one.
abbrev pub deliver : WriteFunction → List (List ℕ) → CurlData → Bool × CurlData
deliver write [] d = (true, d)
deliver write (piece ∷ pieces) d =
    let rest = deliver write pieces (write piece d).1 in
    if (write piece d).0 == length piece then rest else (false, (write piece d).1)

abbrev pub joined : List (List ℕ) → List ℕ
joined [] = []
joined (piece ∷ pieces) = piece ++ joined pieces

-- The buffer grows to at most three times what it holds.
grow_bound :
    (junk : ℕ) (d : CurlData) (array ptr : List ℕ) (most : ℕ)
    → d.allocated ≤ most
    → (d.len + length ptr + 1) * 3 ≤ most
    → (grow_and_store true junk d array ptr).1.allocated ≤ most
unfolding grow_and_store store_bytes
grow_bound junk d array ptr most room needs = ground arith

write_bound :
    (junk : ℕ) (d : CurlData) (ptr : List ℕ) (most : ℕ)
    → d.allocated ≤ most
    → 4096 ≤ most
    → (d.len + length ptr + 1) * 3 ≤ most
    → (tgapi_curl_write true junk ptr d).1.allocated ≤ most
unfolding tgapi_curl_write write_to
write_bound junk d ptr most room page needs = by_data d.data' refl
  where
    by_data : (o : Option (List ℕ)) → d.data' ≡ o → (write_to true junk ptr d o).1.allocated ≤ most
    by_data none e =
        grow_bound junk (record d { allocated = 4096 }) (replicate 4096 junk) ptr most page needs
    by_data (some array) e = grow_bound junk d array ptr most room needs

pub Text-length : (d : CurlData) (bytes : List ℕ) → Text d bytes → d.len ≡ length bytes
Text-length d bytes (unborn gone at none_yet) = at ∙ ap length (sym none_yet)
Text-length d bytes (written rest holds at size) = at

-- Where memory is found, all pieces are taken, and the buffer then holds them behind what it held.
pub deliver-Text :
    (junk : ℕ) (pieces : List (List ℕ)) (d : CurlData) (bytes : List ℕ) (most : ℕ)
    → Text d bytes
    → d.allocated ≤ most
    → 4096 ≤ most
    → (length bytes + length (joined pieces) + 1) * 3 ≤ most
    → most * 3 + 8192 < size_mod
    → (d' : CurlData) × (deliver (tgapi_curl_write true junk) pieces d ≡ (true, d'))
      × Text d' (bytes ++ joined pieces)
deliver-Text junk [] d bytes most text room page needs fits =
    (d, refl, subst (λ l. Text d l) (sym (append-nil bytes)) text)
deliver-Text junk (piece ∷ pieces) d bytes most text room page needs fits =
    let len = Text-length d bytes text in
    let more = length-append piece (joined pieces) in
    let (taken, text1) = tgapi_curl_write-Text junk d bytes piece text (omega (arith, len, more)) in
    let (d', runs, text') =
      deliver-Text junk pieces (tgapi_curl_write true junk piece d).1 (bytes ++ piece) most text1
        (write_bound junk d piece most room page (omega (arith, len, more))) page
        (omega (arith, more, length-append bytes piece)) fits in
    let whole : ((tgapi_curl_write true junk piece d).0 == length piece) ≡ true =
      ground (arith, taken) in
    (d', rw whole runs, subst (λ l. Text d' l) (append_assoc bytes piece (joined pieces)) text')
