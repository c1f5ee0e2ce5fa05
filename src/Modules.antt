-- ===== src/Modules.antt =====
-- modules/module.c and include/gw/module.h: the hooks of the bot's modules, in the order of the table.
-- `U` is an update, `E` is all that a hook can read and change.
pub mod Order
pub mod Ping
pub mod Parsed
mod Tests
use gnuweeb_bot.Common.{
  ℕ, Bool, true, false, not, ◌&&◌, Option, none, some, List, [], ◌∷◌, ◌==◌, bit_and, if◌then◌else◌,
}
use gnuweeb_bot.Common.Int.{ℤ, pos, is_zero}

-- A hook: its status, and what it leaves.
abbrev pub Hook : Type 0 → Type 0
Hook E = E → ℤ × E

-- `struct gw_bot_module`, without the name, which is only printed; `none` is NULL.
pub record GwBotModule (U E : Type 0) : Type 0 where
  pub listen_update_types : ℕ
  pub init : Option (Hook E)
  pub handle : Option (U → Hook E)
  pub shutdown : Option (E → E)

-- `if (ret ...) return ret;`, with the rest of the loop.
abbrev pub go_on : {E : Type 0} → Bool → ℤ × E → Hook E → ℤ × E
go_on allow_fail (ret, world) rest =
    if not (is_zero ret) && not allow_fail then (ret, world) else rest world

-- One lap of gw_init_modules, with the rest of the loop.
abbrev pub init_lap : {E : Type 0} → Option (Hook E) → Bool → Hook E → Hook E
init_lap none allow_fail rest world = rest world
init_lap (some init) allow_fail rest world = go_on allow_fail (init world) rest

module _ {U E : Type 0} where
  unfoldable pub gw_init_modules : List (GwBotModule U E) → Bool → Hook E
  gw_init_modules [] allow_fail world = (pos 0, world)
  gw_init_modules (module' ∷ modules) allow_fail world =
      init_lap module'.init allow_fail (gw_init_modules modules allow_fail) world

  -- `none` is a call of a NULL function: the code calls the hook where there is none.
  unfoldable pub gw_shutdown_modules : List (GwBotModule U E) → E → Option E
  gw_shutdown_modules [] world = some world
  gw_shutdown_modules (module' ∷ modules) world = elim (module'.shutdown) [
    | none ↦ none
    | some shutdown ↦ gw_shutdown_modules modules world
  ]

  -- One lap of gw_module_handle, with the rest of the loop; `deaf` says that the module does not
  -- listen for the type of the update.
  abbrev pub handle_lap : Option (U → Hook E) → Bool → U → Hook E → Hook E
  handle_lap none deaf up rest world = rest world
  handle_lap (some handle) deaf up rest world =
      if deaf then rest world else go_on false (handle up world) rest

  abbrev pub is_deaf : GwBotModule U E → ℕ → Bool
  is_deaf module' type = bit_and module'.listen_update_types type == 0

  -- `update_type` reads `up->type`.
  unfoldable pub gw_module_handle : List (GwBotModule U E) → (U → ℕ) → U → Hook E
  gw_module_handle [] update_type up world = (pos 0, world)
  gw_module_handle (module' ∷ modules) update_type up world =
      handle_lap module'.handle (is_deaf module' (update_type up)) up
        (gw_module_handle modules update_type up) world
