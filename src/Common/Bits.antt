-- ===== src/Common/Bits.antt =====
-- `i & mask` for a mask of low bits is a remainder, at every width.
use Prim.Native.Nat.{
  ℕ, zero, suc, ◌+◌, ◌*◌, ◌/◌, ◌%◌, ◌^◌, ◌≤◌, ◌<◌, min, bit_and, digits, bit_and-bitwise,
}
use mathlib.Core.Path.{◌≡◌, refl, ◌∙◌, ap}
use native.Mathlib.Omega.{arith}
use native.Mathlib.Nat.{
  pow-suc, one-le-pow, mul-add-mod_self_right, div-add-mod', mod-lt, mod-eq_of_lt,
}

abbrev digits_and : ℕ → ℕ → ℕ → ℕ
digits_and fuel a b = digits (λ _. zero) min fuel a b

-- The fuel of the library's recursion does not matter once it reaches the number.
digits_and_fuel : (p q a b : ℕ) → a ≤ p → a ≤ q → digits_and p a b ≡ digits_and q a b
digits_and_fuel zero zero a b hp hq = refl
digits_and_fuel zero (suc q) zero b hp hq = refl
digits_and_fuel zero (suc q) (suc a) b hp hq = absurd (omega arith)
digits_and_fuel (suc p) zero zero b hp hq = refl
digits_and_fuel (suc p) zero (suc a) b hp hq = absurd (omega arith)
digits_and_fuel (suc p) (suc q) zero b hp hq = refl
digits_and_fuel (suc p) (suc q) (suc a) b hp hq =
    omega (arith, digits_and_fuel p q (suc a / 2) (b / 2) (omega arith) (omega arith))

bit_and_zero_left : (b : ℕ) → bit_and 0 b ≡ 0
bit_and_zero_left b = bit_and-bitwise 0 b

pub bit_and_halves : (a b : ℕ) → bit_and a b ≡ bit_and (a / 2) (b / 2) * 2 + min (a % 2) (b % 2)
bit_and_halves zero b = omega (arith, bit_and_zero_left b, bit_and_zero_left (b / 2))
bit_and_halves (suc a) b = omega (
  arith,
  bit_and-bitwise (suc a) b,
  bit_and-bitwise (suc a / 2) (b / 2),
  digits_and_fuel a (suc a / 2) (suc a / 2) (b / 2) (omega arith) (omega arith),
)

bit_and_zero_right : (bound a : ℕ) → a ≤ bound → bit_and a 0 ≡ 0
bit_and_zero_right bound zero h = bit_and_zero_left 0
bit_and_zero_right zero (suc a) h = absurd (omega arith)
bit_and_zero_right (suc bound) (suc a) h =
    omega (arith, bit_and_halves (suc a) 0, bit_and_zero_right bound (suc a / 2) (omega arith))

-- The remainder by `p * 2`, from the remainder of the half.
mod_double : (a p : ℕ) → 0 < p → a % (p * 2) ≡ a / 2 % p * 2 + a % 2
mod_double a p h =
    ap (λ (t : ℕ). t % (p * 2)) regroup
    ∙ mul-add-mod_self_right q (p * 2) (r * 2 + a % 2)
    ∙ mod-eq_of_lt fits
  where
    q : ℕ
    q = a / 2 / p

    r : ℕ
    r = a / 2 % p

    regroup : a ≡ q * (p * 2) + (r * 2 + a % 2)
    regroup = omega (arith, div-add-mod' (a / 2) p)

    fits : r * 2 + a % 2 < p * 2
    fits = omega (arith, mod-lt (a / 2) h)

-- A mask of `k` ones keeps the remainder by `2 ^ k`.
pub bit_and_mask : (k a mask : ℕ) → mask + 1 ≡ 2 ^ k → bit_and a mask ≡ a % 2 ^ k
bit_and_mask zero a mask h = rw empty (omega (arith, bit_and_zero_right a a (omega arith)))
  where
    empty : mask ≡ 0
    empty = omega arith
bit_and_mask (suc k) a mask h = omega (
  arith,
  pow-suc 2 k,
  one-le-pow k 2,
  bit_and_halves a mask,
  bit_and_mask k (a / 2) (mask / 2) (omega (arith, pow-suc 2 k)),
  ap (λ (t : ℕ). a % t) (pow-suc 2 k),
  mod_double a (2 ^ k) (omega (arith, one-le-pow k 2)),
)
