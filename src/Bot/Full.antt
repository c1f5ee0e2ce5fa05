-- ===== src/Bot/Full.antt =====
-- take_sqe on a ring whose submissions are all taken (core/main.c, core/ring.c).
use gnuweeb_bot.Common.{
  ℕ, ◌+◌, ◌<◌, ◌≡◌, refl, ap, ◌∙◌, true, false, none, some, List, [], ◌∷◌, ◌++◌, leb, arith, length,
}
use gnuweeb_bot.Common.Int.{ℤ, suc_ℤ}
use gnuweeb_bot.Common.Errno.{eownerdead}
use gnuweeb_bot.Common.Word.{u32_add, llabs_diff}
use gnuweeb_bot.Common.Circular.{looks_full}
use gnuweeb_bot.Ring.{GwRing, GwRingSqe}
use gnuweeb_bot.Ring.Prep.{gw_ring_get_sqe}
use gnuweeb_bot.Ring.Submit.{IoWq, gw_ring_submit}
use gnuweeb_bot.Ring.Slots.{Submitted, llabs_diff_comm, mask_fits, gw_ring_get_sqe-fill}
use gnuweeb_bot.Ring.Issue.{gw_ring_submit-Submitted}
use gnuweeb_bot.Bot.{Address, TgBotCtx, prep_get_updates}
use gnuweeb_bot.Bot.Arm.{take_sqe, take_again, prepare, without_updates, arm_update_sqe}
use gnuweeb_bot.Bot.Room.{Room, poll, poll_fixed, prepare_lem}

gw_ring_get_sqe-full :
    {W : Type 0} (ring : GwRing Address W) (bits : ℕ) (xs : List (GwRingSqe Address))
    → Submitted bits ring xs
    → length xs ≡ ring.sq_mask + 1
    → ((gw_ring_get_sqe ring).0 ≡ none) × ((gw_ring_get_sqe ring).1 ≡ ring)
unfolding gw_ring_get_sqe
gw_ring_get_sqe-full ring bits xs c full =
    let seen = looks_full c in
    let above : leb (u32_add ring.sq_mask 1) (llabs_diff ring.sq_head ring.sq_tail) ≡ true =
      ground (arith, mask_fits c, llabs_diff_comm ring.sq_head ring.sq_tail) in
    (rw above refl, rw above refl)

module _ {J W : Type 0} (io : IoWq W (GwRingSqe Address)) (fuel : ℕ) where
  submits_first :
      (ctx : TgBotCtx J W) (bits : ℕ) (xs : List (GwRingSqe Address))
      → Submitted bits ctx.ring xs
      → length xs ≡ ctx.ring.sq_mask + 1
      → take_sqe io fuel ctx ≡ take_again io fuel ctx (gw_ring_submit io fuel ctx.ring)
  unfolding take_sqe
  submits_first ctx bits xs c full =
      let (null, same) = gw_ring_get_sqe-full ctx.ring bits xs c full in
      rw (null, same, take_sqe) refl

  -- On a ring that is stopped and whose submissions are all taken, arm_update_sqe uses the NULL that
  -- gw_ring_get_sqe returns a second time: gw_ring_submit takes no submission from such a ring.
  pub arm_update_sqe-stopped :
      (ctx : TgBotCtx J W) (bits : ℕ) (xs : List (GwRingSqe Address))
      → Submitted bits ctx.ring xs
      → length xs ≡ ctx.ring.sq_mask + 1
      → ctx.ring.should_stop ≡ true
      → arm_update_sqe io fuel ctx ≡ none
  unfolding arm_update_sqe take_sqe take_again gw_ring_submit prepare without_updates
  arm_update_sqe-stopped ctx bits xs c full stopped =
      let (null, same) = gw_ring_get_sqe-full ctx.ring bits xs c full in
      let refused : gw_ring_submit io fuel ctx.ring ≡ some (eownerdead, [], ctx.ring) =
        rw stopped refl in
      let gone : take_again io fuel ctx (some (eownerdead, [], ctx.ring)) ≡ none =
        rw (null, take_again) refl in
      ap
        (λ t.
          without_updates io fuel (prepare io fuel (prep_get_updates (suc_ℤ ctx.max_update_id)) t))
        (submits_first ctx bits xs c full ∙ ap (take_again io fuel ctx) refused ∙ gone)

  -- After the submit, the first submission is free.
  taken_again :
      (ctx : TgBotCtx J W) (ring : GwRing Address W) (ret : ℤ) (freed : List Address) (bits idx : ℕ)
      (xs : List (GwRingSqe Address))
      → Submitted bits ctx.ring xs
      → length xs ≡ ctx.ring.sq_mask + 1
      → gw_ring_submit io fuel ctx.ring ≡ some (ret, freed, ring)
      → (gw_ring_get_sqe ring).0 ≡ some idx
      → take_sqe io fuel ctx
        ≡ take_sqe io fuel (record ctx { ring = ring; freed = ctx.freed ++ freed })
  unfolding take_sqe take_again
  taken_again ctx ring ret freed bits idx xs c full runs got =
      submits_first ctx bits xs c full
      ∙ ap (take_again io fuel ctx) runs
      ∙ (rw (got, take_again, take_sqe) refl)

  -- On a ring that is not stopped, whose submissions are all taken, arm_update_sqe submits them
  -- first: where gw_ring_submit returns, the next getUpdates call is the only submission left.
  pub arm_update_sqe-full :
      (ctx : TgBotCtx J W) (ring : GwRing Address W) (bits : ℕ) (xs : List (GwRingSqe Address))
      (ret : ℤ) (freed : List Address)
      → Submitted bits ctx.ring xs
      → length xs ≡ ctx.ring.sq_mask + 1
      → length xs < fuel
      → ctx.ring.should_stop ≡ false
      → gw_ring_submit io fuel ctx.ring ≡ some (ret, freed, ring)
      → (ring' : GwRing Address W) × (arm_update_sqe io fuel ctx
          ≡ some (record ctx { ring = ring'; updates = none; freed = ctx.freed ++ freed }))
        × Submitted bits ring' (poll (suc_ℤ ctx.max_update_id) ∷ [])
  unfolding arm_update_sqe without_updates
  arm_update_sqe-full ctx ring bits xs ret freed c full enough going runs =
      let offset = suc_ℤ ctx.max_update_id in
      let (n, is_n, below, left) =
        gw_ring_submit-Submitted io fuel ctx.ring ring bits xs ret freed c enough going runs in
      let room : Room bits 1 ring [] = record {
        submitted = left;
        free = omega arith;
        unwrapped = omega (arith, left.head_fits);
      } in
      let (idx, got, filled) =
        gw_ring_get_sqe-fill ring bits [] (poll offset) left (omega arith)
          (omega (arith, left.head_fits)) in
      let (ring', armed, room') =
        prepare_lem io fuel (prep_get_updates offset) (poll offset)
          (record ctx { ring = ring; freed = ctx.freed ++ freed }) bits 0 [] (poll_fixed offset)
          room in
      let again = taken_again ctx ring ret freed bits idx xs c full runs got in
      (
        ring',
        ap (λ t. without_updates io fuel (prepare io fuel (prep_get_updates offset) t)) again
            ∙ ap (without_updates io fuel) armed,
        room'.submitted,
      )
