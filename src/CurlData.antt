-- ===== src/CurlData.antt =====
-- tgapi_curl_write (lib/tgapi.c): the buffer that collects the body of a response. Its argument `dd`
-- is not NULL, as both callers pass a buffer.
pub mod Append
mod Tests
use gnuweeb_bot.Common.{
  ℕ, zero, suc, ◌+◌, ◌-◌, ◌*◌, ◌%◌, ◌^◌, Bool, true, false, Option, none, some, List, [], ◌∷◌, ◌++◌,
  ltb, if◌then◌else◌, set, length, replicate,
}
use gnuweeb_bot.Common.Int.{ℤ, pos}
use gnuweeb_bot.Common.Errno.{enomem}

-- `size_t`
abbrev pub size_mod : ℕ
size_mod = 2 ^ 64

-- `struct curl_data`; `data` is the allocated bytes, `none` is NULL.
pub record CurlData : Type 0 where
  pub data' : Option (List ℕ)
  pub len : ℕ
  pub allocated : ℕ
  pub err : ℤ

-- `memcpy(&array[i], bytes, ...)`
abbrev pub copy_at : List ℕ → ℕ → List ℕ → List ℕ
copy_at array i [] = array
copy_at array i (b ∷ bytes) = copy_at (set array i b) (i + 1) bytes

-- `found` says whether `malloc` and `realloc` succeed, `junk` is what new memory holds.
module _ (found : Bool) (junk : ℕ) where
  -- The end, where the buffer is large enough.
  unfoldable pub store_bytes : CurlData → List ℕ → List ℕ → ℕ × CurlData
  store_bytes d array ptr =
      let len = (d.len + length ptr) % size_mod in
      (length ptr, record d { data' = some (set (copy_at array d.len ptr) len 0); len = len })

  unfoldable pub grow_and_store : CurlData → List ℕ → List ℕ → ℕ × CurlData
  unfolding store_bytes
  grow_and_store d array ptr =
      let new_len = (d.len + length ptr + 1) % size_mod in
      let new_allocated = (d.allocated * 2 % size_mod + new_len) % size_mod in
      if ltb d.allocated new_len
      then (if found
          then store_bytes (record d { allocated = new_allocated })
              (array ++ replicate (new_allocated - d.allocated) junk) ptr
          else (0, record d { data' = none; err = enomem }))
      else store_bytes d array ptr

  unfoldable pub write_to : List ℕ → CurlData → Option (List ℕ) → ℕ × CurlData
  unfolding grow_and_store
  write_to ptr d (some array) = grow_and_store d array ptr
  write_to ptr d none =
      if found
      then grow_and_store (record d { allocated = 4096 }) (replicate 4096 junk) ptr
      else (0, record d { allocated = 4096; err = enomem })

  -- With a buffer; the result is the number of bytes taken.
  unfoldable pub tgapi_curl_write : List ℕ → CurlData → ℕ × CurlData
  unfolding write_to
  tgapi_curl_write ptr d = write_to ptr d d.data'
