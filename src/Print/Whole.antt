-- ===== src/Print/Whole.antt =====
-- What __gw_print (core/print.c) prints of a text.
use gnuweeb_bot.Common.{
  ℕ, ◌+◌, ◌-◌, ◌%◌, ◌^◌, ◌<◌, ◌≡◌, refl, ap, ◌∙◌, Bool, true, false, not, List, leb, ltb,
  if◌then◌else◌, arith, length, Bool-cases, inl, inr, take, take-all,
}
use gnuweeb_bot.Common.Int.{ℤ, pos}
use gnuweeb_bot.Common.Cast.{int_of_size}
use gnuweeb_bot.Print.{get_print_type, alloc_print_buf, gw_print}

-- From a va_list vsnprintf formats to a text: it returns its length, and stores what of it fits before
-- the NUL. Of the va_list that it leaves nothing is known.
abbrev pub Formats : {V : Type 0} → (V → ℕ → ℤ × List ℕ × V) → V → List ℕ → Type 0
Formats {V} vsnprintf va text =
    (size : ℕ)
    → 0 < size
    → (va' : V) × (vsnprintf va size ≡ (pos (length text), take (size - 1) text, va'))

leb-ltb : (a b : ℕ) → leb a b ≡ not (ltb b a)
leb-ltb a b = ground arith

lt_of_ltb : (a b : ℕ) → ltb a b ≡ true → a < b
lt_of_ltb a b h = ground arith

ltb_of_lt : (a b : ℕ) → a < b → ltb a b ≡ true
ltb_of_lt a b h = ground arith

int_of_small : (n : ℕ) → n < 2 ^ 31 → int_of_size n ≡ pos n
int_of_small n h = let same : n % 2 ^ 32 ≡ n = omega arith in rw (same, ltb_of_lt n (2 ^ 31) h) refl

-- __gw_print returns the length of the text to which vsnprintf formats, and keeps no block. A text
-- below 8192 characters is printed whole, under its kind. Of a longer one the first 8191 characters are
-- printed where there is no memory; where there is, what is printed is whatever vsnprintf makes of the
-- va_list that its first call has left.
pub gw_print_lem :
    {V : Type 0} (vsnprintf : V → ℕ → ℤ × List ℕ × V) (va : V) (text : List ℕ) (found : Bool)
    (type : ℕ) (time : List ℕ) (blocks : ℕ)
    → Formats vsnprintf va text
    → length text < 2 ^ 31
    → gw_print vsnprintf found type va time blocks ≡ (
      pos (length text),
      record {
        time = time;
        kind = get_print_type type;
        text =
            if ltb (length text) 8192
            then text
            else if found
            then (vsnprintf (vsnprintf va 8192).2 (length text + 1)).1
            else take 8191 text;
      },
      blocks,
    )
unfolding gw_print alloc_print_buf
gw_print_lem vsnprintf va text found type time blocks formats short =
    let (used, first) = formats 8192 (omega arith) in
    let len : (vsnprintf va 8192).0 ≡ pos (length text) = ap (λ t. t.0) first in
    let cut : (vsnprintf va 8192).1 ≡ take 8191 text = ap (λ t. t.1) first in
    let sized : (length text + 1) % 2 ^ 64 ≡ length text + 1 = omega arith in
    let back : blocks + 1 - 1 ≡ blocks = omega arith in
    let small : int_of_size (length text) ≡ pos (length text) = int_of_small (length text) short in
    elim (Bool-cases (ltb (length text) 8192)) [
      | inl fits ↦
          let inside : leb 8192 (length text) ≡ false = leb-ltb 8192 (length text) ∙ ap not fits in
          let all : take 8191 text ≡ text =
            take-all 8191 text (omega (arith, lt_of_ltb (length text) 8192 fits)) in
          rw (len, cut, inside, small, all, fits, gw_print, alloc_print_buf) refl
      | inr large ↦
          let beyond : leb 8192 (length text) ≡ true = leb-ltb 8192 (length text) ∙ ap not large in
          elim (Bool-cases found) [
            | inl there ↦
                rw (len, beyond, small, large, there, sized, back, gw_print, alloc_print_buf) refl
            | inr gone ↦ rw (len, cut, beyond, small, gone, large, gw_print, alloc_print_buf) refl
          ]
    ]
