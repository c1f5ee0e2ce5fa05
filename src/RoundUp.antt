-- ===== src/RoundUp.antt =====
-- The loop `max = 2u; while (max < n) max *= 2u;` of validate_and_adjust_workqueue_attr
-- (core/workqueue.c) and of gw_ring_init (core/ring.c).
pub mod Limits
use gnuweeb_bot.Common.{ℕ, zero, suc, Option, none, some, ltb, if◌then◌else◌}
use gnuweeb_bot.Common.Word.{u32_mul}

-- `none` means that the fuel ran out.
unfoldable pub round_up_from : ℕ → ℕ → ℕ → Option ℕ
round_up_from zero max n = none
round_up_from (suc fuel) max n =
    let rest = round_up_from fuel (u32_mul max 2) n in if ltb max n then rest else some max

-- From 2 to `2 ^ 31` there are 31 tests.
abbrev pub round_up_fuel : ℕ
round_up_fuel = 31

unfoldable pub round_up : ℕ → Option ℕ
unfolding round_up_from
round_up n = round_up_from round_up_fuel 2 n
