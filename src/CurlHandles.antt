-- ===== src/CurlHandles.antt =====
-- lib/curl.c: the list of the handles that the threads have made. `H` is a handle.
pub mod Global
mod Tests
use gnuweeb_bot.Common.{
  ℕ, zero, suc, ◌+◌, ◌*◌, ◌/◌, ◌≡◌, ◌<◌, ◌≤◌, refl, ap, ◌∙◌, Bool, true, false, Option, none, some,
  List, [], ◌∷◌, arith, leb, ltb, if◌then◌else◌, set, length, length-set, get_elem?,
  get_elem?-set_self, get_elem?-set_ne, ◌≢◌, replicate, length-replicate,
}

-- `struct curl_handle_list`, without the mutex; `handles` is what the allocation has room for.
pub record CurlHandleList (H : Type 0) : Type 0 where
  pub handles : List H
  pub allocated : ℕ
  pub nr_handles : ℕ

-- The bytes of a pointer.
abbrev pub pointer_size : ℕ
pointer_size = 8

module _ {H : Type 0} where
  -- `realloc` to room for `n` handles: the new ones hold `junk`.
  abbrev pub resize : ℕ → H → List H → List H
  resize zero junk handles = []
  resize (suc n) junk [] = junk ∷ resize n junk []
  resize (suc n) junk (h ∷ handles) = h ∷ resize n junk handles

  -- `none` is -ENOMEM. The argument of `realloc` is the number of handles, taken for bytes.
  unfoldable pub gw_curl_realloc_handles : Bool → H → CurlHandleList H → Option (CurlHandleList H)
  gw_curl_realloc_handles found junk cd =
      let new_allocated = cd.allocated * 2 in
      if found
      then some (record cd {
        handles = resize (new_allocated / pointer_size) junk cd.handles;
        allocated = new_allocated;
      })
      else none

  -- `cd->handles[cd->nr_handles++] = ret`; `none` is a write past the allocation.
  unfoldable pub store_handle : H → CurlHandleList H → Option (CurlHandleList H)
  store_handle ret cd =
      if ltb cd.nr_handles (length cd.handles)
      then some
          (record cd { handles = set cd.handles cd.nr_handles ret; nr_handles = cd.nr_handles + 1 })
      else none

  abbrev pub stored : H → Option (CurlHandleList H) → Option (Option H × CurlHandleList H)
  stored ret none = none
  stored ret (some cd) = some (some ret, cd)

  unfoldable pub after_realloc :
      H → CurlHandleList H → Option (CurlHandleList H) → Option (Option H × CurlHandleList H)
  unfolding store_handle
  after_realloc ret cd none = some (none, cd)
  after_realloc ret cd (some grown) = stored ret (store_handle ret grown)

  -- `current` is the handle of the thread and `easy` the result of curl_easy_init, `none` if NULL;
  -- `found` says whether `realloc` succeeds. The outer `none` is a write past the allocation, the
  -- inner one the result NULL.
  unfoldable pub gw_curl_thread_init :
      (current easy : Option H) → Bool → H → CurlHandleList H → Option (Option H × CurlHandleList H)
  unfolding gw_curl_realloc_handles store_handle after_realloc
  gw_curl_thread_init (some handle) easy found junk cd = some (some handle, cd)
  gw_curl_thread_init none none found junk cd = some (none, cd)
  gw_curl_thread_init none (some ret) found junk cd =
      if leb cd.allocated cd.nr_handles
      then after_realloc ret cd (gw_curl_realloc_handles found junk cd)
      else stored ret (store_handle ret cd)

  -- The allocation has room for `allocated` handles, of which `nr_handles` are in use.
  pub record HasRoom (cd : CurlHandleList H) : Type 0 where
    pub sized : length cd.handles ≡ cd.allocated
    pub fits : cd.nr_handles ≤ cd.allocated

  -- With a free place, a thread without a handle gets the new one, which is recorded behind the
  -- others; these stay, and the places stay as many.
  pub gw_curl_thread_init-HasRoom :
      (easy junk : H) (found : Bool) (cd : CurlHandleList H)
      → HasRoom cd
      → cd.nr_handles < cd.allocated
      → (cd' : CurlHandleList H) × (gw_curl_thread_init none (some easy) found junk cd
          ≡ some (some easy, cd'))
        × HasRoom cd'
        × (cd'.nr_handles ≡ cd.nr_handles + 1)
        × (get_elem? cd'.handles cd.nr_handles ≡ some easy)
        × ((i : ℕ) → i < cd.nr_handles → get_elem? cd'.handles i ≡ get_elem? cd.handles i)
  unfolding gw_curl_thread_init store_handle
  gw_curl_thread_init-HasRoom easy junk found cd room free =
      let inside : cd.nr_handles < length cd.handles = omega (arith, room.sized) in
      (
        record cd { handles = set cd.handles cd.nr_handles easy; nr_handles = cd.nr_handles + 1 },
        ground arith,
        record {
          sized = length-set cd.handles cd.nr_handles easy ∙ room.sized;
          fits = omega arith;
        },
        refl,
        get_elem?-set_self cd.handles cd.nr_handles easy inside,
        λ i below. get_elem?-set_ne cd.handles cd.nr_handles i easy (λ e. omega arith),
      )

  length-resize : (n : ℕ) (junk : H) (handles : List H) → length (resize n junk handles) ≡ n
  length-resize zero junk handles = refl
  length-resize (suc n) junk [] = ap suc (length-resize n junk [])
  length-resize (suc n) junk (h ∷ handles) = ap suc (length-resize n junk handles)

  -- Without a free place the list is grown, and where `realloc` succeeds the new handle is written
  -- past the allocation.
  pub full_list_overflows :
      (easy junk : H) (cd : CurlHandleList H)
      → HasRoom cd
      → 0 < cd.allocated
      → cd.nr_handles ≡ cd.allocated
      → gw_curl_thread_init none (some easy) true junk cd ≡ none
  unfolding gw_curl_thread_init gw_curl_realloc_handles store_handle after_realloc
  full_list_overflows easy junk cd room some_place full =
      ground (arith, length-resize (cd.allocated * 2 / pointer_size) junk cd.handles)
