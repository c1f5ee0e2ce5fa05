-- ===== src/RoundUp/Limits.antt =====
-- How far the doubling loop of the two ring sizes goes, and where it never ends.
use native.Mathlib.Nat.{pow-suc, pow-le-pow_right}
use gnuweeb_bot.Common.{
  ℕ, zero, suc, ◌+◌, ◌*◌, ◌^◌, ◌≤◌, ◌<◌, ◌≡◌, refl, ◌⊎◌, inl, inr, none, some, arith, ltb, dec_lt,
  Bool-cases, ltb→lt, lt→ltb, true,
}
use gnuweeb_bot.Common.Word.{u32_mul}
use gnuweeb_bot.RoundUp.{round_up_from, round_up, round_up_fuel}

-- What the loop leaves: the least power of two from 2 on that is not below `n`.
pub record RoundsUp (n p : ℕ) : Type 0 where
  pub bits : ℕ
  pub small : bits ≤ 31
  pub power : p ≡ 2 ^ bits
  pub two_le : 2 ≤ p
  pub covers : n ≤ p
  pub least : (p ≡ 2) ⊎ (p < 2 * n)

-- One lap doubles the exponent's power, short of the width of the word.
double : (bits : ℕ) → bits ≤ 30 → u32_mul (2 ^ bits) 2 ≡ 2 ^ suc bits
double bits h = omega (arith, pow-suc 2 bits, pow-le-pow_right {n = 2} (omega arith) h)

pub exponent_below : (bits : ℕ) → 2 ^ bits < 2 ^ 31 → bits ≤ 30
exponent_below bits h = elim (dec_lt bits 31) [
  | yes p ↦ omega arith
  | no p ↦
      absurd
        (omega (arith, pow-le-pow_right {n = 2} (omega arith) {i = 31} {j = bits} (omega arith)))
]

round_up_from_lem :
    (fuel bits n : ℕ)
    → fuel + bits ≡ 32
    → 1 ≤ bits
    → bits ≤ 31
    → n ≤ 2 ^ 31
    → (2 ^ bits ≡ 2) ⊎ (2 ^ bits < 2 * n)
    → (p : ℕ) × (round_up_from fuel (2 ^ bits) n ≡ some p) × RoundsUp n p
unfolding round_up_from
round_up_from_lem zero bits n e h b k l = absurd (omega arith)
round_up_from_lem (suc fuel) bits n e h b k l = elim (Bool-cases (ltb (2 ^ bits) n)) [
  | inl more ↦
      let below = exponent_below bits (omega (arith, ltb→lt _ _ more)) in
      rw (more, double bits below)
        (round_up_from_lem fuel (suc bits) n (omega arith) (omega arith) (omega arith) k
          (inr (omega (arith, ltb→lt _ _ more, pow-suc 2 bits))))
  | inr done ↦ (
    2 ^ bits,
    rw done,
    record {
      bits = bits;
      small = b;
      power = refl;
      two_le = omega (arith, pow-le-pow_right {n = 2} (omega arith) h);
      covers = ground arith;
      least = l;
    },
  )
]

-- For a size of at most `2 ^ 31` the loop ends, at the least power of two that is neither below
-- the size nor below 2.
pub round_up_least : (n : ℕ) → n ≤ 2 ^ 31 → (p : ℕ) × (round_up n ≡ some p) × RoundsUp n p
unfolding round_up
round_up_least n h =
    round_up_from_lem round_up_fuel 1 n (omega arith) (omega arith) (omega arith) h (inl refl)

zero_runs_on : (fuel n : ℕ) → 0 < n → round_up_from fuel 0 n ≡ none
unfolding round_up_from
zero_runs_on zero n h = refl
zero_runs_on (suc fuel) n h = rw (lt→ltb 0 n h) (zero_runs_on fuel n h)

powers_run_on : (fuel bits n : ℕ) → bits ≤ 31 → 2 ^ 31 < n → round_up_from fuel (2 ^ bits) n ≡ none
unfolding round_up_from
powers_run_on zero bits n b h = refl
powers_run_on (suc fuel) bits n b h = rw below (elim (dec_lt bits 31) [
  | yes p ↦ rw (double bits (omega arith)) (powers_run_on fuel (suc bits) n p h)
  | no p ↦ let last : bits ≡ 31 = omega arith in rw last (zero_runs_on fuel n (omega arith))
])
  where
    below : ltb (2 ^ bits) n ≡ true
    below =
        lt→ltb (2 ^ bits) n
          (omega (arith, pow-le-pow_right {n = 2} (omega arith) {i = bits} {j = 31} b))

-- For a size above `2 ^ 31` the product wraps to 0 and the loop never ends: no number of laps is
-- enough.
pub round_up_diverges : (fuel n : ℕ) → 2 ^ 31 < n → round_up_from fuel 2 n ≡ none
round_up_diverges fuel n h = powers_run_on fuel 1 n (omega arith) h
