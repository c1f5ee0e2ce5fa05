-- ===== src/Common/Circular.antt =====
-- The circular arrays of the program: `array[counter++ & mask]`, with free-running `uint32_t`
-- counters and a size that is a power of two. `Circular` says which items such an array holds.
use native.Mathlib.Nat.{mod-lt, mul-le-mul_right}
use native.Mathlib.Nat.{
  mod-mod_of_dvd, pow-suc, one-le-pow, pow-le-pow_right, dvd_refl, dvd-mul_right_of_dvd,
  div-add-mod',
}
use Prim.Native.Nat.{◌∣◌}
use gnuweeb_bot.Common.{
  ℕ, zero, suc, ◌+◌, ◌-◌, ◌/◌, ◌%◌, ◌^◌, ◌≤◌, ◌<◌, bit_and, ◌≡◌, refl, ap, ◌≢◌, ◌∙◌, sym, some,
  List, [], ◌∷◌, ◌++◌, arith, length, get_elem?, set, length-set, length-append, get_elem?-set_self,
  get_elem?-set_ne, dec_lt, leb, ◌==◌, ◌||◌, Bool, true, false, replicate, length-replicate,
}
use gnuweeb_bot.Common.Bits.{bit_and_mask}
use gnuweeb_bot.Common.Word.{u32_mod, u32_add, llabs_diff}

abbrev pub is_empty {ℓ} : {A : Type ℓ} → List A → Bool
is_empty [] = true
is_empty (_ ∷ _) = false

-- The items that lie from the counter `i` on, in order.
abbrev pub Holds {ℓ} : {A : Type ℓ} → List A → ℕ → ℕ → List A → Type ℓ
Holds array mask i [] = Unit
Holds array mask i (x ∷ xs) =
    (get_elem? array (bit_and i mask) ≡ some x) × Holds array mask (u32_add i 1) xs

-- The `2 ^ bits` slots of `array` hold `xs` between `head` and `tail`, oldest first.
pub record Circular {ℓ} {A : Type ℓ} (bits : ℕ) (array : List A) (mask head tail : ℕ) (xs : List A)
    : Type ℓ where
  pub small : bits ≤ 31
  pub power : mask + 1 ≡ 2 ^ bits
  pub sized : length array ≡ mask + 1
  pub head_fits : head < u32_mod
  pub tail_at : tail ≡ u32_add head (length xs)
  pub room : length xs ≤ mask + 1
  pub holds : Holds array mask head xs

pow-dvd-pow : (d a b : ℕ) → a + d ≡ b → 2 ^ a ∣ 2 ^ b
pow-dvd-pow zero a b e = let same : a ≡ b = omega arith in rw (← same) (dvd_refl (2 ^ a))
pow-dvd-pow (suc d) a b e =
    let step : suc (a + d) ≡ b = omega arith in
    rw (← step, pow-suc 2 (a + d)) (dvd-mul_right_of_dvd (2 ^ a) (pow-dvd-pow d a (a + d) refl) 2)

-- The wrap of the counter is invisible in the slot, since the size divides `2 ^ 32`.
pub slot_of_counter :
    (bits i mask : ℕ) → bits ≤ 31 → mask + 1 ≡ 2 ^ bits → bit_and (i % u32_mod) mask ≡ i % 2 ^ bits
slot_of_counter bits i mask h e =
    bit_and_mask bits (i % u32_mod) mask e
    ∙ mod-mod_of_dvd (2 ^ bits) i (pow-dvd-pow (32 - bits) bits 32 (omega arith))

-- Two counters less than one round apart have different slots.
mod_apart : (i n p : ℕ) → 0 < n → n < p → (i + n) % p ≢ i % p
mod_apart i n p h k e = elim (dec_lt (i / p) ((i + n) / p)) [
  | yes more ↦ omega (
    arith,
    div-add-mod' i p,
    div-add-mod' (i + n) p,
    mul-le-mul_right {m = suc (i / p)} {n = (i + n) / p} p more,
  )
  | no less ↦ omega (
    arith,
    div-add-mod' i p,
    div-add-mod' (i + n) p,
    mul-le-mul_right {m = (i + n) / p} {n = i / p} p (omega arith),
  )
]

slot_apart :
    (bits i n mask : ℕ)
    → bits ≤ 31
    → mask + 1 ≡ 2 ^ bits
    → i < u32_mod
    → 0 < n
    → n < mask + 1
    → bit_and (u32_add i n) mask ≢ bit_and i mask
slot_apart bits i n mask small power fits h k e =
    mod_apart i n (2 ^ bits) h (omega arith)
      (sym (slot_of_counter bits (i + n) mask small power) ∙ e ∙ bit_and_mask bits i mask power)

-- A slot lies inside the array.
pub slot-lt : (bits i mask : ℕ) → mask + 1 ≡ 2 ^ bits → bit_and i mask < mask + 1
slot-lt bits i mask e =
    omega (
      arith,
      bit_and_mask bits i mask e,
      mod-lt i {m = 2 ^ bits} (omega (arith, one-le-pow bits 2)),
    )

module _ {ℓ} {A : Type ℓ} (bits mask : ℕ) (small : bits ≤ 31) (power : mask + 1 ≡ 2 ^ bits) where
  -- A write behind the last item extends the items by it.
  Holds-push :
      (array : List A) (i slot : ℕ) (xs : List A) (v : A)
      → length array ≡ mask + 1
      → i < u32_mod
      → length xs < mask + 1
      → slot ≡ bit_and (u32_add i (length xs)) mask
      → Holds array mask i xs
      → Holds (set array slot v) mask i (xs ++ v ∷ [])
  Holds-push array i slot [] v sized fits room at h =
      let here : bit_and i mask ≡ slot = ap (λ (t : ℕ). bit_and t mask) (omega arith) ∙ sym at in
      let inside : slot < length array = omega (arith, slot-lt bits i mask power) in
      (rw here (get_elem?-set_self array slot v inside), tt)
  Holds-push array i slot (x ∷ xs) v sized fits room at h =
      let apart = slot_apart bits i (length (x ∷ xs)) mask small power fits (omega arith) room in
      let moved : u32_add i (length (x ∷ xs)) ≡ u32_add (u32_add i 1) (length xs) = omega arith in
      let at' = at ∙ ap (λ (t : ℕ). bit_and t mask) moved in
      (
        get_elem?-set_ne array slot (bit_and i mask) v (λ e. apart (sym at ∙ e)) ∙ h.0,
        Holds-push array (u32_add i 1) slot xs v sized (omega arith) (omega arith) at' h.1,
      )

module _ {ℓ} {A : Type ℓ} {bits mask head tail : ℕ} {array : List A} where
  -- The write of a producer, at a tail that then moves on.
  pub push-Circular :
      {xs : List A} (v : A)
      → Circular bits array mask head tail xs
      → length xs < mask + 1
      → Circular bits (set array (bit_and tail mask) v) mask head (u32_add tail 1) (xs ++ v ∷ [])
  push-Circular {xs} v c free = record {
    small = c.small;
    power = c.power;
    sized = length-set array (bit_and tail mask) v ∙ c.sized;
    head_fits = c.head_fits;
    tail_at = omega (arith, c.tail_at, length-append {ℓ} xs (v ∷ []));
    room = omega (arith, length-append {ℓ} xs (v ∷ []));
    holds =
        Holds-push bits mask c.small c.power array head (bit_and tail mask) xs v c.sized c.head_fits
          free (ap (λ (t : ℕ). bit_and t mask) c.tail_at) c.holds;
  }

  -- The read of a consumer, at a head that then moves on.
  pub pop-Circular :
      {x : A} {xs : List A}
      → Circular bits array mask head tail (x ∷ xs)
      → (get_elem? array (bit_and head mask) ≡ some x)
        × Circular bits array mask (u32_add head 1) tail xs
  pop-Circular c = (
    c.holds.0,
    record {
      small = c.small;
      power = c.power;
      sized = c.sized;
      head_fits = omega arith;
      tail_at = omega (arith, c.tail_at);
      room = omega (arith, c.room);
      holds = c.holds.1;
    },
  )

  pub size-le : {xs : List A} → Circular bits array mask head tail xs → mask + 1 ≤ 2 ^ 31
  size-le c = omega (arith, c.power, pow-le-pow_right {n = 2} (omega arith) c.small)

  -- `head != tail` tests for an item, wrapped or not.
  pub counters_differ :
      (xs : List A) → Circular bits array mask head tail xs → (head == tail) ≡ is_empty xs
  counters_differ [] c = ground (arith, c.tail_at, c.head_fits)
  counters_differ (x ∷ xs) c = ground (arith, c.tail_at, c.head_fits, c.room, size-le c)

  -- The distance test counts the items while the tail has not wrapped past the head; a wrapped
  -- tail looks full.
  pub looks_full :
      {xs : List A}
      → Circular bits array mask head tail xs
      → leb (mask + 1) (llabs_diff tail head)
        ≡ (leb (mask + 1) (length xs) || leb u32_mod (head + length xs))
  looks_full {xs} c = ground (arith, c.tail_at, c.head_fits, c.room, size-le c)

-- A fresh array holds nothing.
pub fresh-Circular {ℓ} :
    {A : Type ℓ} (bits mask : ℕ) (z : A)
    → bits ≤ 31
    → mask + 1 ≡ 2 ^ bits
    → Circular bits (replicate (mask + 1) z) mask 0 0 []
fresh-Circular bits mask z small power = record {
  small = small;
  power = power;
  sized = length-replicate (mask + 1) z;
  head_fits = omega arith;
  tail_at = omega arith;
  room = omega arith;
  holds = tt;
}
