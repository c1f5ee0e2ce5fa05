-- ===== src/Common/Word.antt =====
-- `uint32_t`: wrapping addition, and the distance of two counters that the rings measure.
use gnuweeb_bot.Common.{ℕ, ◌+◌, ◌-◌, ◌*◌, ◌%◌, ◌^◌, ◌<◌, ◌≡◌, arith, ltb, if◌then◌else◌}

abbrev pub u32_mod : ℕ
u32_mod = 2 ^ 32

abbrev pub u32_add : ℕ → ℕ → ℕ
u32_add a b = (a + b) % u32_mod

abbrev pub u32_mul : ℕ → ℕ → ℕ
u32_mul a b = a * b % u32_mod

-- `-` on ℕ stops at 0, so the modulus is added first.
abbrev pub u32_sub : ℕ → ℕ → ℕ
u32_sub a b = (a + u32_mod - b) % u32_mod

-- `llabs((int64_t)a - (int64_t)b)`: the operands fit, so nothing wraps.
abbrev pub llabs_diff : ℕ → ℕ → ℕ
llabs_diff a b = if ltb a b then b - a else a - b

-- A counter that has taken `n` steps from `head` is `n` away, unless it has wrapped on the way.
pub llabs_diff_ahead :
    (head n : ℕ)
    → head < u32_mod
    → n < u32_mod
    → llabs_diff (u32_add head n) head ≡ (if ltb (head + n) u32_mod then n else u32_mod - n)
llabs_diff_ahead head n h k = ground arith
