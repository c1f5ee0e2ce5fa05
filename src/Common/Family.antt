-- ===== src/Common/Family.antt =====
-- Threads as a family `ℕ → A` of states, and how many of the first `n` are in some state.
use gnuweeb_bot.Common.{
  ℕ, zero, suc, ◌+◌, ◌≤◌, ◌<◌, ◌≡◌, ◌≢◌, refl, ◌==◌, if◌then◌else◌, arith, dec_lt,
}

abbrev pub assign {ℓ} : {A : Type ℓ} → (ℕ → A) → ℕ → A → ℕ → A
assign f i a j = if i == j then a else f j

module _ {ℓ} {A : Type ℓ} (weight : A → ℕ) where
  unfoldable pub total : ℕ → (ℕ → A) → ℕ
  total zero f = 0
  total (suc n) f = weight (f n) + total n f

  -- Families of equal weights have equal totals.
  pub total-ext :
      (n : ℕ) (f g : ℕ → A) → ((i : ℕ) → weight (f i) ≡ weight (g i)) → total n f ≡ total n g
  unfolding total
  total-ext zero f g h = refl
  total-ext (suc n) f g h = omega (arith, h n, total-ext n f g h)

  total-assign_above :
      (n : ℕ) (f : ℕ → A) (i : ℕ) (a : A) → n ≤ i → total n (assign f i a) ≡ total n f
  unfolding total
  total-assign_above zero f i a h = refl
  total-assign_above (suc n) f i a h = ground (arith, total-assign_above n f i a)

  -- One thread that changes moves the total by its own weights.
  pub total-assign :
      (n : ℕ) (f : ℕ → A) (i : ℕ) (a : A)
      → i < n
      → total n (assign f i a) + weight (f i) ≡ total n f + weight a
  unfolding total
  total-assign zero f i a h = absurd (omega arith)
  total-assign (suc n) f i a h = elim (dec_lt i n) [
    | yes below ↦ ground (arith, total-assign n f i a below)
    | no last ↦ ground (arith, total-assign_above n f i a)
  ]

  pub total-le : (n : ℕ) (f : ℕ → A) → ((a : A) → weight a ≤ 1) → total n f ≤ n
  unfolding total
  total-le zero f h = omega arith
  total-le (suc n) f h = omega (arith, h (f n), total-le n f h)

  pub total-none : (n : ℕ) (f : ℕ → A) → ((i : ℕ) → weight (f i) ≡ 0) → total n f ≡ 0
  unfolding total
  total-none zero f h = refl
  total-none (suc n) f h = omega (arith, h n, total-none n f h)

  -- A total of 0 leaves no weight to any thread.
  pub total-zero : (n : ℕ) (f : ℕ → A) (i : ℕ) → total n f ≡ 0 → i < n → weight (f i) ≡ 0
  unfolding total
  total-zero zero f i e h = absurd (omega arith)
  total-zero (suc n) f i e h = elim (dec_lt i n) [
    | yes below ↦ total-zero n f i (omega arith) below
    | no last ↦ let here : i ≡ n = omega arith in ground arith
  ]

  -- A total above 0 has a thread with some weight.
  pub total-some : (n : ℕ) (f : ℕ → A) → total n f ≢ 0 → (i : ℕ) × (i < n) × (weight (f i) ≢ 0)
  unfolding total
  total-some zero f h = absurd (h refl)
  total-some (suc n) f h = elim (dec_lt 0 (weight (f n))) [
    | yes some_weight ↦ (n, omega arith, λ e. omega arith)
    | no none_here ↦
        let (i, inside, found) = total-some n f (λ e. h (omega arith)) in (i, omega arith, found)
  ]
