-- ===== src/Tgapi/Parse.antt =====
-- parse_json, tgapi_parse_update_len, tgapi_parse_updates_len_max and tgapi_free_updates
-- (lib/tgapi.c), and the functions that pass their arguments on to them.
use gnuweeb_bot.Common.{
  ℕ, zero, suc, ◌+◌, Bool, true, false, Option, none, some, List, [], ◌∷◌, if◌then◌else◌, min,
  get_elem?, set, replicate, length, ◌-◌,
}
use gnuweeb_bot.Common.Int.{ℤ, pos, is_zero}
use gnuweeb_bot.Common.Errno.{enoent, enomem, einval}
use gnuweeb_bot.Common.Family.{assign}
use gnuweeb_bot.CurlData.{size_mod}
use gnuweeb_bot.Tgapi.{
  JsonC, Text, TokenerError, json_tokener_success, json_tokener_continue, TgUpdate, zero_update,
}
use gnuweeb_bot.Tgapi.Memory.{Memory, malloc, free, json_object_get, json_object_put}
use gnuweeb_bot.Tgapi.Object.{tgj_get_update}
use gnuweeb_bot.Tgapi.Release.{tgapi_free_update}

-- A tokener of json-c on a text: whether json_tokener_new succeeds, and what each call of
-- json_tokener_parse_ex leaves, in order.
pub record Tokener (J : Type 0) : Type 0 where
  pub made : Bool
  pub parse_ex : ℕ → TokenerError × J

-- `struct tg_updates`, and where it lies.
pub record TgUpdates (J : Type 0) : Type 0 where
  pub at : ℕ
  pub len : ℕ
  pub updates : List (TgUpdate J)

module _ {J : Type 0} (json : JsonC J) where
  -- The loop of parse_json. `none` means that the fuel ran out.
  unfoldable pub parse_laps : ℕ → Tokener J → ℕ → Option (TokenerError × J)
  parse_laps zero tok k = none
  parse_laps (suc fuel) tok k = elim (tok.parse_ex k).0 [
    | json_tokener_continue ↦ parse_laps fuel tok (k + 1)
    | _ ↦ some (tok.parse_ex k)
  ]

  abbrev pub as_pointer : J → Option J
  as_pointer obj = if json.is_null obj then none else some obj

  -- json_object_put of a pointer that may be NULL.
  unfoldable pub put_opt : Option J → Memory → Memory
  unfolding json_object_put
  put_opt none mem = mem
  put_opt (some obj) mem = json_object_put (json.address obj) mem

  -- A new object has one reference.
  unfoldable pub hold : J → Memory → Memory
  hold obj mem = record mem { refs = assign mem.refs (json.address obj) 1 }

  -- The status and the object, NULL or not, that is written to `*jobj_p` where the status is zero.
  unfoldable pub after_laps : Option (TokenerError × J) → Memory → Option (ℤ × Option J × Memory)
  unfolding hold
  after_laps none mem = none
  after_laps (some (json_tokener_success, obj)) mem = some (pos 0, some obj, hold obj mem)
  after_laps (some (_, obj)) mem = some (einval, none, mem)

  unfoldable pub parse_json : ℕ → Tokener J → Memory → Option (ℤ × Option J × Memory)
  unfolding parse_laps after_laps
  parse_json fuel tok mem =
      if tok.made then after_laps (parse_laps fuel tok 0) mem else some (enomem, none, mem)

  -- After parse_json.
  unfoldable pub keep_update : TgUpdate J → ℤ × TgUpdate J × Memory → ℤ × TgUpdate J × Memory
  unfolding put_opt
  keep_update before (ret, update, mem) =
      if is_zero ret then (pos 0, update, mem) else (ret, zero_update, put_opt before.json mem)

  unfoldable pub parsed_update :
      TgUpdate J → Option (ℤ × Option J × Memory) → Option (ℤ × TgUpdate J × Memory)
  unfolding keep_update tgj_get_update
  parsed_update update none = none
  parsed_update update (some (ret, none, mem)) = some (ret, update, mem)
  parsed_update update (some (ret, some obj, mem)) =
      let held : TgUpdate J = record update { json = as_pointer obj } in
      some (keep_update held (tgj_get_update json held obj mem))

  unfoldable pub tgapi_parse_update_len :
      ℕ → TgUpdate J → Tokener J → Memory → Option (ℤ × TgUpdate J × Memory)
  unfolding parse_json parsed_update
  tgapi_parse_update_len fuel update tok mem = parsed_update update (parse_json fuel tok mem)

  -- The loop over the items from `i` on, `n` of them: whether one was NULL, how many updates were
  -- kept, the array, and the memory. `none` is an access outside the array.
  unfoldable pub parse_items :
      (n : ℕ)
      → J
      → (i j : ℕ) → List (TgUpdate J)
      → Memory
      → Option (Bool × ℕ × List (TgUpdate J) × Memory)
  unfolding tgj_get_update json_object_get
  parse_items zero result i j updates mem = some (false, j, updates, mem)
  parse_items (suc n) result i j updates mem =
      let item = json.json_object_array_get_idx result i in
      if json.is_null item then some (true, j, updates, mem) else elim (get_elem? updates j) [
        | none ↦ none
        | some slot ↦
            let (ret, slot', mem') = tgj_get_update json slot item mem in
            parse_items n result (i + 1) (if is_zero ret then j + 1 else j) (set updates j slot')
              (if is_zero ret then json_object_get (json.address item) mem' else mem')
      ]

  -- tgapi_free_update of each update.
  unfoldable pub free_each : List (TgUpdate J) → Memory → Memory
  unfolding tgapi_free_update
  free_each [] mem = mem
  free_each (update ∷ updates) mem = free_each updates (tgapi_free_update json update mem).1

  unfoldable pub tgapi_free_updates : TgUpdates J → Memory → Memory
  unfolding free_each free
  tgapi_free_updates updates mem = free updates.at (free_each updates.updates mem)

  -- After the loop: through `out_clean` where an item was NULL, which frees the block; then `out`.
  -- The status is zero on both ways, and `*updates_p` is set.
  unfoldable pub end_items :
      (at len : ℕ)
      → J
      → Option (Bool × ℕ × List (TgUpdate J) × Memory)
      → Option (ℤ × Option (TgUpdates J) × Memory)
  unfolding put_opt tgapi_free_updates
  end_items at len jobj none = none
  end_items at len jobj (some (null_item, j, updates, mem)) =
      let block : TgUpdates J = record { at = at; len = len; updates = updates } in
      some (
        pos 0,
        some block,
        put_opt (as_pointer jobj) (if null_item then tgapi_free_updates block mem else mem),
      )

  -- From `calloc` on, `len` being the number of items that are looked at.
  unfoldable pub fill_updates :
      (len : ℕ) (jobj result : J) → Option ℕ × Memory → Option (ℤ × Option (TgUpdates J) × Memory)
  unfolding end_items parse_items put_opt
  fill_updates len jobj result (none, mem) = some (enomem, none, put_opt (as_pointer jobj) mem)
  fill_updates len jobj result (some at, mem) =
      end_items at len jobj (parse_items len result 0 0 (replicate len zero_update) mem)

  unfoldable pub parsed_updates :
      ℕ → Option (ℤ × Option J × Memory) → Option (ℤ × Option (TgUpdates J) × Memory)
  unfolding fill_updates put_opt malloc
  parsed_updates max_updates none = none
  parsed_updates max_updates (some (ret, none, mem)) = some (ret, none, mem)
  parsed_updates max_updates (some (ret, some jobj, mem)) =
      elim (json.json_object_object_get_ex jobj "result") [
        | none ↦ some (enoent, none, put_opt (as_pointer jobj) mem)
        | some result ↦
            fill_updates (min (json.json_object_array_length result) max_updates) jobj result
              (malloc mem)
      ]

  -- The second component is what is written to `*updates_p`, if anything.
  unfoldable pub tgapi_parse_updates_len_max :
      ℕ → Tokener J → ℕ → Memory → Option (ℤ × Option (TgUpdates J) × Memory)
  unfolding parse_json parsed_updates
  tgapi_parse_updates_len_max fuel tok max_updates mem =
      parsed_updates max_updates (parse_json fuel tok mem)

-- The functions that pass their arguments on. `tokener` gives what json-c makes of a text of which it
-- is told the length, the final NUL counted.
module _ {J : Type 0} (json : JsonC J) (tokener : Text → ℕ → Tokener J) where
  unfoldable pub tgapi_parse_update :
      ℕ → TgUpdate J → Text → Memory → Option (ℤ × TgUpdate J × Memory)
  unfolding tgapi_parse_update_len
  tgapi_parse_update fuel update text mem =
      tgapi_parse_update_len json fuel update (tokener text (length text + 1)) mem

  -- The maximum is `(size_t)~0ul`.
  unfoldable pub tgapi_parse_updates_len :
      ℕ → Text → ℕ → Memory → Option (ℤ × Option (TgUpdates J) × Memory)
  unfolding tgapi_parse_updates_len_max
  tgapi_parse_updates_len fuel text len mem =
      tgapi_parse_updates_len_max json fuel (tokener text len) (size_mod - 1) mem

  unfoldable pub tgapi_parse_updates :
      ℕ → Text → Memory → Option (ℤ × Option (TgUpdates J) × Memory)
  unfolding tgapi_parse_updates_len
  tgapi_parse_updates fuel text mem = tgapi_parse_updates_len fuel text (length text + 1) mem
