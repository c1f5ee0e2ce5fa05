-- ===== src/Workqueue/Attr.antt =====
-- validate_and_adjust_workqueue_attr (core/workqueue.c)
use gnuweeb_bot.Common.{
  ℕ, ◌-◌, ◌/◌, ◌^◌, ◌≤◌, ◌<◌, bit_and, ◌≡◌, refl, ◌⊎◌, inl, inr, Option, none, some, arith, ltb,
  leb, ◌==◌, if◌then◌else◌, dec_lt,
}
use gnuweeb_bot.Common.Int.{ℤ, pos}
use gnuweeb_bot.Common.Errno.{einval}
use gnuweeb_bot.Common.Bits.{bit_and_mask, bit_and_halves}
use gnuweeb_bot.Common.Word.{u32_mod}
use gnuweeb_bot.RoundUp.{round_up}
use gnuweeb_bot.RoundUp.Limits.{RoundsUp, round_up_least}
use gnuweeb_bot.Workqueue.{WorkqueueAttr, wq_f_all}

-- `attr->flags & ~WQ_F_ALL`
abbrev pub unknown_flags : ℕ → ℕ
unknown_flags flags = bit_and flags (u32_mod - 1 - wq_f_all)

-- The rounding of `max_pending_works`; `none` means that its loop does not end.
adjust_pending : WorkqueueAttr → Option (ℤ × WorkqueueAttr)
unfolding round_up
adjust_pending attr = elim (round_up attr.max_pending_works) [
  | none ↦ none
  | some max ↦ some (pos 0, record attr { max_pending_works = max })
]

abbrev default_threads : WorkqueueAttr → WorkqueueAttr
default_threads attr = if attr.max_threads == 0 then record attr { max_threads = 4 } else attr

check_threads : WorkqueueAttr → Option (ℤ × WorkqueueAttr)
unfolding adjust_pending
check_threads attr =
    if ltb attr.max_threads attr.min_threads then some (einval, attr) else adjust_pending attr

-- The attributes are changed in place, also by a call that fails.
unfoldable pub validate_and_adjust_workqueue_attr : WorkqueueAttr → Option (ℤ × WorkqueueAttr)
unfolding check_threads
validate_and_adjust_workqueue_attr attr =
    if unknown_flags attr.flags == 0
    then check_threads (default_threads attr)
    else some (einval, attr)

-- No flag but the lowest is known.
unknown_flags_lem : (flags : ℕ) → flags < u32_mod → (unknown_flags flags == 0) ≡ leb flags wq_f_all
unknown_flags_lem flags h = ground (
  arith,
  bit_and_halves flags (u32_mod - 1 - wq_f_all),
  bit_and_mask 31 (flags / 2) ((u32_mod - 1 - wq_f_all) / 2) refl,
)

-- The number of threads that is meant: 0 asks for the default.
abbrev pub wanted_threads : WorkqueueAttr → ℕ
wanted_threads attr = if attr.max_threads == 0 then 4 else attr.max_threads

-- What accepted attributes promise to the rest of the queue.
pub record IsAdjusted (attr out : WorkqueueAttr) : Type 0 where
  pub threads : out.max_threads ≡ wanted_threads attr
  pub min_le_max : out.min_threads ≤ out.max_threads
  pub pending : RoundsUp attr.max_pending_works out.max_pending_works
  pub same_flags : out.flags ≡ attr.flags
  pub same_min : out.min_threads ≡ attr.min_threads

-- Attributes with known flags, no more minimal than maximal threads and at most `2 ^ 31` pending
-- works are accepted, and adjusted to a power of two of pending works and a positive number of
-- threads.
pub validate_accepts :
    (attr : WorkqueueAttr)
    → attr.flags ≤ wq_f_all
    → attr.min_threads ≤ wanted_threads attr
    → attr.max_pending_works ≤ 2 ^ 31
    → (out : WorkqueueAttr) × (validate_and_adjust_workqueue_attr attr ≡ some (pos 0, out))
      × IsAdjusted attr out
unfolding validate_and_adjust_workqueue_attr
validate_accepts attr known enough small =
    let (max, e, r) = round_up_least attr.max_pending_works small in
    (
      record attr { max_threads = wanted_threads attr; max_pending_works = max },
      ground (arith, unknown_flags_lem attr.flags (omega arith), e),
      record {
        threads = refl;
        min_le_max = enough;
        pending = r;
        same_flags = refl;
        same_min = refl;
      },
    )

-- Unknown flags that fit a `uint32_t`, or more minimal than maximal threads, are refused with -EINVAL, and the number of
-- pending works stays.
pub validate_rejects :
    (attr : WorkqueueAttr)
    → attr.flags < u32_mod
    → (wq_f_all < attr.flags) ⊎ (wanted_threads attr < attr.min_threads)
    → (out : WorkqueueAttr) × (validate_and_adjust_workqueue_attr attr ≡ some (einval, out))
      × (out.max_pending_works ≡ attr.max_pending_works)
unfolding validate_and_adjust_workqueue_attr
validate_rejects attr word (inl unknown) =
    (attr, ground (arith, unknown_flags_lem attr.flags word), refl)
validate_rejects attr word (inr few) = elim (dec_lt wq_f_all attr.flags) [
  | yes unknown ↦ (attr, ground (arith, unknown_flags_lem attr.flags word), refl)
  | no known ↦
      (default_threads attr, ground (arith, unknown_flags_lem attr.flags word), ground arith)
]

-- The validation ends for at most `2 ^ 31` pending works.
pub validate_total :
    (attr : WorkqueueAttr)
    → attr.flags < u32_mod
    → attr.max_pending_works ≤ 2 ^ 31
    → (checked : ℤ × WorkqueueAttr) × (validate_and_adjust_workqueue_attr attr ≡ some checked)
validate_total attr word small = elim (dec_lt wq_f_all attr.flags) [
  | yes unknown ↦ let (out, e, _) = validate_rejects attr word (inl unknown) in ((einval, out), e)
  | no known ↦ elim (dec_lt (wanted_threads attr) attr.min_threads) [
    | yes few ↦ let (out, e, _) = validate_rejects attr word (inr few) in ((einval, out), e)
    | no enough ↦
        let (out, e, _) = validate_accepts attr (omega arith) (omega arith) small in
        ((pos 0, out), e)
  ]
]
