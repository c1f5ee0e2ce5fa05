-- ===== src/CurlHandles/Global.antt =====
-- gw_curl_global_init and gw_curl_global_cleanup (lib/curl.c). `H` is a handle.
use gnuweeb_bot.Common.{
  ℕ, zero, suc, ◌+◌, ◌≡◌, refl, sym, ap, ◌∙◌, Bool, true, false, Option, none, some, List, [], ◌∷◌,
  ◌==◌, arith, if◌then◌else◌, length, get_elem?, replicate, length-replicate, Bool-cases, inl, inr,
  ◌++◌, length-append, append_assoc, get_elem?-behind,
}
use gnuweeb_bot.Common.Int.{ℤ, pos, is_zero}
use gnuweeb_bot.Common.Errno.{enomem}
use gnuweeb_bot.CurlHandles.{CurlHandleList, HasRoom}

-- What the two functions acquire and give back.
pub data Resource : Type 0 where
  curl_library handle_list list_mutex handle_array : Resource

-- What the calls on the way return: whether curl_global_init succeeds with the flags, whether
-- `malloc` and `calloc` do, and the status of mutex_init. NULL is a value of `H`.
pub record CurlEnv (H : Type 0) : Type 0 where
  pub curl_global_all : ℕ
  pub curl_global_init : ℕ → Bool
  pub found : Bool
  pub mutex_init : ℤ
  pub found_handles : Bool
  pub null : H

-- `held` are the resources in use, the last first.
abbrev pub Started : Type 0 → Type 0
Started H = ℤ × Option (CurlHandleList H) × List Resource

abbrev pub same_resource : Resource → Resource → Bool
same_resource curl_library curl_library = true
same_resource handle_list handle_list = true
same_resource list_mutex list_mutex = true
same_resource handle_array handle_array = true
same_resource _ _ = false

abbrev pub give_back : Resource → List Resource → List Resource
give_back r [] = []
give_back r (s ∷ held) = if same_resource r s then held else s ∷ give_back r held

module _ {H : Type 0} where
  -- The labels.
  unfoldable pub out_free_curl : ℤ → List Resource → Started H
  out_free_curl ret held = (ret, none, give_back curl_library held)

  unfoldable pub out_free_cd : ℤ → List Resource → Started H
  unfolding out_free_curl
  out_free_cd ret held = out_free_curl ret (give_back handle_list held)

  unfoldable pub out_free_mutex : ℤ → List Resource → Started H
  unfolding out_free_cd
  out_free_mutex ret held = out_free_cd ret (give_back list_mutex held)

  -- From `calloc` on.
  unfoldable pub init_handles : CurlEnv H → List Resource → Started H
  unfolding out_free_mutex
  init_handles env held =
      if env.found_handles
      then (
        pos 0,
        some (record { handles = replicate 1024 env.null; allocated = 1024; nr_handles = 0 }),
        handle_array ∷ held,
      )
      else out_free_mutex enomem held

  -- From `malloc` on.
  unfoldable pub init_list : CurlEnv H → List Resource → Started H
  unfolding init_handles out_free_cd out_free_curl
  init_list env held =
      if env.found
      then (if is_zero env.mutex_init
          then init_handles env (list_mutex ∷ handle_list ∷ held)
          else out_free_cd env.mutex_init (handle_list ∷ held))
      else out_free_curl enomem held

  unfoldable pub gw_curl_global_init : CurlEnv H → ℕ → List Resource → Started H
  unfolding init_list
  gw_curl_global_init env flags held =
      if env.curl_global_init (if flags == 0 then env.curl_global_all else flags)
      then init_list env (curl_library ∷ held)
      else (enomem, none, held)

  -- The loop of the cleanup, from the i-th handle on: the handles that curl_easy_cleanup gets, in
  -- order. `none` is a read outside the array.
  unfoldable pub cleanup_from : (n i : ℕ) → List H → Option (List H)
  cleanup_from zero i handles = some []
  cleanup_from (suc n) i handles = elim (get_elem? handles i) [
    | none ↦ none
    | some h ↦ elim (cleanup_from n (i + 1) handles) [ none ↦ none | some hs ↦ some (h ∷ hs) ]
  ]

  unfoldable pub gw_curl_global_cleanup :
      CurlHandleList H → List Resource → Option (List H × List Resource)
  unfolding cleanup_from
  gw_curl_global_cleanup cd held = elim (cleanup_from cd.nr_handles 0 cd.handles) [
    | none ↦ none
    | some hs ↦
        some (hs, give_back handle_list (give_back curl_library (give_back handle_array held)))
  ]

-- How gw_curl_global_init ends.
pub data Ready {H : Type 0} (held : List Resource) (out : Started H) : Type 0 where
  ready :
      (cd : CurlHandleList H)
      → out ≡ (pos 0, some cd, handle_array ∷ list_mutex ∷ handle_list ∷ curl_library ∷ held)
      → HasRoom cd
      → cd.allocated ≡ 1024
      → cd.nr_handles ≡ 0
      → Ready held out
  given_up : (ret : ℤ) → is_zero ret ≡ false → out ≡ (ret, none, held) → Ready held out

module _ {H : Type 0} where
  -- gw_curl_global_init either succeeds, with status zero, an empty list with room for 1024 handles
  -- and all four resources, or fails with another status and holds nothing that it did not hold
  -- before.
  pub gw_curl_global_init-Ready :
      (env : CurlEnv H) (flags : ℕ) (held : List Resource)
      → Ready held (gw_curl_global_init env flags held)
  unfolding gw_curl_global_init init_list init_handles out_free_mutex out_free_cd out_free_curl
  gw_curl_global_init-Ready env flags held =
      elim (Bool-cases (env.curl_global_init (if flags == 0 then env.curl_global_all else flags))) [
        | inr failed ↦ given_up enomem refl (rw failed refl)
        | inl up ↦ elim (Bool-cases env.found) [
          | inr failed ↦ given_up enomem refl (rw (up, failed) refl)
          | inl found ↦ elim (Bool-cases (is_zero env.mutex_init)) [
            | inr failed ↦ given_up env.mutex_init failed (rw (up, found, failed) refl)
            | inl locked ↦ elim (Bool-cases env.found_handles) [
              | inr failed ↦ given_up enomem refl (rw (up, found, locked, failed) refl)
              | inl all ↦
                  ready
                    (record { handles = replicate 1024 env.null; allocated = 1024; nr_handles = 0 })
                    (rw (up, found, locked, all) refl)
                    (record { sized = length-replicate 1024 env.null; fits = omega arith }) refl
                    refl
            ]
          ]
        ]
      ]

  cleanup_from_lem :
      (used left spare : List H)
      → cleanup_from (length used) (length left) (left ++ (used ++ spare)) ≡ some used
  unfolding cleanup_from
  cleanup_from_lem [] left spare = refl
  cleanup_from_lem (h ∷ used) left spare =
      let longer : length left + 1 ≡ length (left ++ h ∷ []) =
        omega (arith, length-append left (h ∷ [])) in
      let moved : (left ++ h ∷ []) ++ (used ++ spare) ≡ left ++ h ∷ (used ++ spare) =
        append_assoc left (h ∷ []) (used ++ spare) in
      let rest : cleanup_from (length used) (length left + 1) (left ++ h ∷ (used ++ spare))
          ≡ some used =
        ap (λ (i : ℕ). cleanup_from (length used) i (left ++ h ∷ (used ++ spare))) longer
        ∙ ap (λ (l : List H). cleanup_from (length used) (length (left ++ h ∷ [])) l) (sym moved)
        ∙ cleanup_from_lem used (left ++ h ∷ []) spare in
      rw (get_elem?-behind left (used ++ spare) h, rest, cleanup_from) refl

  -- gw_curl_global_cleanup after gw_curl_global_init and any number of new handles gives each of
  -- them to curl_easy_cleanup, in the order they were made, and then all resources back but the
  -- mutex, which stays.
  pub gw_curl_global_cleanup_lem :
      (cd : CurlHandleList H) (used spare : List H) (held : List Resource)
      → cd.handles ≡ used ++ spare
      → cd.nr_handles ≡ length used
      → gw_curl_global_cleanup cd (handle_array ∷ list_mutex ∷ handle_list ∷ curl_library ∷ held)
        ≡ some (used, list_mutex ∷ held)
  unfolding gw_curl_global_cleanup
  gw_curl_global_cleanup_lem cd used spare held whole count =
      let all : cleanup_from cd.nr_handles 0 cd.handles ≡ some used =
        ap (λ (n : ℕ). cleanup_from n 0 cd.handles) count
        ∙ ap (λ (l : List H). cleanup_from (length used) 0 l) whole
        ∙ cleanup_from_lem used [] spare in
      rw (all, gw_curl_global_cleanup) refl
