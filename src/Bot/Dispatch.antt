-- ===== src/Bot/Dispatch.antt =====
-- What core/main.c submits, and in which order.
use gnuweeb_bot.Common.{ℕ, ◌+◌, Option, none, some, List, [], ◌∷◌, if◌then◌else◌}
use gnuweeb_bot.Common.Int.{ℤ, is_neg}
use gnuweeb_bot.Tgapi.{JsonC, TgUpdate}
use gnuweeb_bot.Tgapi.Release.{tgapi_inc_ref_update}
use gnuweeb_bot.Tgapi.Parse.{TgUpdates}
use gnuweeb_bot.Ring.{GwRingSqe, tg_module_handle}
use gnuweeb_bot.Tgapi.Memory.{Memory}
use gnuweeb_bot.Bot.{Address, update_at, ctx_at}
use gnuweeb_bot.Bot.Updates.{note_id}
use gnuweeb_bot.Bot.Room.{Room}

-- The submission that hands the i-th update of the array at a block to the modules, for each update
-- from the i-th on.
abbrev pub handles : {J : Type 0} → (block i : ℕ) → List (TgUpdate J) → List (GwRingSqe Address)
handles block i [] = []
handles block i (up ∷ ups) =
    tg_module_handle 0 (record { ctx = ctx_at; update = update_at block i })
    ∷ handles block (i + 1) ups

-- The greatest of the identifiers and a start.
abbrev pub latest : {J : Type 0} → List (TgUpdate J) → ℤ → ℤ
latest [] start = start
latest (up ∷ ups) start = latest ups (note_id up start)

module _ {J : Type 0} (json : JsonC J) where
  -- One reference more for each update.
  abbrev pub counted : List (TgUpdate J) → Memory → Memory
  unfolding tgapi_inc_ref_update
  counted [] mem = mem
  counted (up ∷ ups) mem = counted ups (tgapi_inc_ref_update json up mem)

-- The updates of an array, and where it is; NULL has none.
abbrev pub updates_of : {J : Type 0} → Option (TgUpdates J) → List (TgUpdate J)
updates_of none = []
updates_of (some block) = block.updates

abbrev pub block_of : {J : Type 0} → Option (TgUpdates J) → ℕ
block_of none = 0
block_of (some block) = block.at

-- The updates that a completion brings: none where the call failed.
abbrev pub arrived : {J : Type 0} → ℤ → Option (TgUpdates J) → List (TgUpdate J)
arrived res updates = if is_neg res then [] else updates_of updates
