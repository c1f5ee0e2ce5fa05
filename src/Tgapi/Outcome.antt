-- ===== src/Tgapi/Outcome.antt =====
-- How tgapi_parse_updates_len_max (lib/tgapi.c) ends on a text with a result.
use gnuweeb_bot.Common.{
  ℕ, zero, suc, ◌+◌, ◌≡◌, refl, ap, ◌∙◌, true, some, List, [], ◌∷◌, ◌++◌, if◌then◌else◌, arith,
  length, replicate, length-replicate, min,
}
use gnuweeb_bot.Common.Int.{pos}
use gnuweeb_bot.Tgapi.{JsonC, TgUpdate, zero_update}
use gnuweeb_bot.Tgapi.Memory.{Memory, malloc, free}
use gnuweeb_bot.Tgapi.Release.{tgapi_free_update}
use gnuweeb_bot.Tgapi.Parse.{
  Tokener, TgUpdates, end_items, fill_updates, parsed_updates, put_opt, as_pointer, free_each,
  tgapi_free_updates, parse_json, tgapi_parse_updates_len_max,
}
use gnuweeb_bot.Tgapi.Owned.{malloc_found}
use gnuweeb_bot.Tgapi.Updates.{items_from, has_null, Kept, NoJson, parse_items-Looked}

module _ {J : Type 0} (json : JsonC J) where
  free_each-NoJson :
      (updates : List (TgUpdate J)) (mem : Memory)
      → NoJson json updates
      → free_each json updates mem ≡ mem
  unfolding free_each tgapi_free_update
  free_each-NoJson [] mem h = refl
  free_each-NoJson (update ∷ updates) mem h = rw h.0 (free_each-NoJson updates mem h.1)

  NoJson-append :
      (left right : List (TgUpdate J))
      → NoJson json left
      → NoJson json right
      → NoJson json (left ++ right)
  NoJson-append [] right hl hr = hr
  NoJson-append (update ∷ left) right hl hr = (hl.0, NoJson-append left right hl.1 hr)

  NoJson-replicate : (n : ℕ) → NoJson json (replicate n zero_update)
  NoJson-replicate zero = tt
  NoJson-replicate (suc n) = (refl, NoJson-replicate n)

  -- What the caller gets. `n` items were looked at, from `n` zeroed slots and the memory `start`;
  -- `updates` are those of the items before the first NULL that could be parsed, and lie in the first
  -- slots.
  pub record Given (start : Memory) (jobj result : J) (n : ℕ) (block : TgUpdates J) (mem' : Memory)
      : Type 0 where
    pub updates : List (TgUpdate J)
    pub rest : List (TgUpdate J)
    pub slots : block.updates ≡ updates ++ rest
    pub mem : Memory
    pub parsed :
        Kept json (replicate n zero_update) start (items_from json n result 0) updates rest mem
    pub len : block.len ≡ n
    pub sized : length updates + length rest ≡ n
    pub freed_alone : (m : Memory) → tgapi_free_updates json block m ≡ free block.at m
    pub left :
        mem'
        ≡ put_opt json
            (as_pointer json jobj)
            (if has_null json n result 0 then free block.at mem else mem)

  filled :
      (jobj result : J) (n at : ℕ) (mem : Memory)
      → (block : TgUpdates J) × (mem' : Memory) × (fill_updates json n jobj result (some at, mem)
          ≡ some (pos 0, some block, mem'))
        × Given mem jobj result n block mem'
  unfolding fill_updates end_items tgapi_free_updates
  filled jobj result n at mem =
      let look =
        parse_items-Looked json n result 0 [] (replicate n zero_update) mem
          (omega (arith, length-replicate {A = TgUpdate J} n zero_update)) (NoJson-replicate n) in
      let null = has_null json n result 0 in
      let whole : List (TgUpdate J) = look.updates ++ look.rest in
      let block : TgUpdates J = record { at = at; len = n; updates = whole } in
      let alone : (m : Memory) → tgapi_free_updates json block m ≡ free at m = λ m. ap (free at) (
        free_each-NoJson whole m
          (NoJson-append look.updates look.rest look.no_json.0 look.no_json.1)) in
      (
        block,
        put_opt json (as_pointer json jobj)
            (if null then tgapi_free_updates json block look.mem' else look.mem'),
        ap (end_items json at n jobj) look.runs,
        record {
          updates = look.updates;
          rest = look.rest;
          slots = refl;
          parsed = look.parsed;
          len = refl;
          sized = omega (arith, look.sized, length-replicate {A = TgUpdate J} n zero_update);
          freed_alone = alone;
          mem = look.mem';
          left =
              ap
                (λ (m : Memory).
                  put_opt json (as_pointer json jobj) (if null then m else look.mem'))
                (alone look.mem');
        },
      )

  with_result :
      (max_updates : ℕ) (jobj result : J) (mem1 : Memory)
      → json.json_object_object_get_ex jobj "result" ≡ some result
      → parsed_updates json max_updates (some (pos 0, some jobj, mem1))
        ≡ fill_updates json
            (min (json.json_object_array_length result) max_updates)
            jobj
            result
            (malloc mem1)
  unfolding parsed_updates
  with_result max_updates jobj result mem1 there = rw (there, parsed_updates) refl

  -- On a text that parses to an object with a result, and with memory for the array,
  -- tgapi_parse_updates_len_max returns zero and an array with a slot for each item, at most
  -- `max_updates`. The items before the first NULL are parsed one after the other, each into the first
  -- slot that is left and in the memory that the items before it left: the updates of those that could
  -- be parsed lie in the first slots, in order; the others leave slots behind them, which the length
  -- counts as well. Where an item is NULL
  -- the array that the caller gets has been freed. No update holds its JSON object, so that
  -- tgapi_free_updates frees the array alone.
  pub tgapi_parse_updates_lem :
      (fuel : ℕ) (tok : Tokener J) (max_updates : ℕ) (mem mem1 : Memory) (jobj result : J)
      → parse_json json fuel tok mem ≡ some (pos 0, some jobj, mem1)
      → json.json_object_object_get_ex jobj "result" ≡ some result
      → mem1.found mem1.calls ≡ true
      → (block : TgUpdates J) × (mem' : Memory) × (tgapi_parse_updates_len_max json fuel tok
            max_updates mem
          ≡ some (pos 0, some block, mem'))
        × Given
            (record mem1 { calls = mem1.calls + 1; live = mem1.calls ∷ mem1.live })
            jobj
            result
            (min (json.json_object_array_length result) max_updates)
            block
            mem'
  unfolding tgapi_parse_updates_len_max
  tgapi_parse_updates_lem fuel tok max_updates mem mem1 jobj result parses there found =
      let n = min (json.json_object_array_length result) max_updates in
      let taken : Memory = record mem1 { calls = mem1.calls + 1; live = mem1.calls ∷ mem1.live } in
      let (block, mem', runs, given) = filled jobj result n mem1.calls taken in
      (
        block,
        mem',
        ap (parsed_updates json max_updates) parses
            ∙ with_result max_updates jobj result mem1 there
            ∙ ap (fill_updates json n jobj result) (malloc_found mem1 found)
            ∙ runs,
        given,
      )
