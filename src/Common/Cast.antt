-- ===== src/Common/Cast.antt =====
-- Conversions between the C integers.
use Prim.Native.Nat.{ℕ, ◌-◌, ◌%◌, ◌^◌}
use gnuweeb_bot.Common.Tests.{ltb, if◌then◌else◌}
use gnuweeb_bot.Common.Int.{ℤ, pos, negsuc}

-- The conversion of a `uint32_t` to `int`.
abbrev pub int_of_u32 : ℕ → ℤ
int_of_u32 n = if ltb n (2 ^ 31) then pos n else negsuc (2 ^ 32 - 1 - n)

-- The conversion of a `size_t` to `int`.
abbrev pub int_of_size : ℕ → ℤ
int_of_size n = int_of_u32 (n % 2 ^ 32)

-- The conversion of a `uint64_t` to `int64_t`.
abbrev pub int64_of_u64 : ℕ → ℤ
int64_of_u64 n = if ltb n (2 ^ 63) then pos n else negsuc (2 ^ 64 - 1 - n)
