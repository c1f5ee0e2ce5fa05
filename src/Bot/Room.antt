-- ===== src/Bot/Room.antt =====
-- A submission that core/main.c prepares on a ring with room.
use gnuweeb_bot.Common.{
  ℕ, suc, ◌+◌, ◌<◌, ◌≤◌, ◌≡◌, refl, some, List, [], ◌∷◌, ◌++◌, arith, length, length-append,
  get_elem?-lt, bit_and,
}
use gnuweeb_bot.Common.Int.{ℤ}
use gnuweeb_bot.Common.Word.{u32_mod}
use gnuweeb_bot.Common.Circular.{slot-lt}
use gnuweeb_bot.Ring.{
  GwRing, GwRingSqe, nop, tg_api_call, tg_module_handle, other, tg_api_get_updates,
}
use gnuweeb_bot.Ring.Prep.{gw_ring_get_sqe, fill_sqe}
use gnuweeb_bot.Ring.Submit.{IoWq}
use gnuweeb_bot.Ring.Slots.{Submitted, gw_ring_get_sqe-fill}
use gnuweeb_bot.Bot.{Address, tctx_at, ctx_at, updates_at, TgBotCtx, prep_get_updates, prep_handle}
use gnuweeb_bot.Bot.Arm.{take_sqe, prepare}

module _ {W : Type 0} where
  -- The ring still takes `n` submissions, and its tail does not wrap on the way.
  pub record Room (bits n : ℕ) (ring : GwRing Address W) (xs : List (GwRingSqe Address))
      : Type 0 where
    pub submitted : Submitted bits ring xs
    pub free : length xs + n ≤ ring.sq_mask + 1
    pub unwrapped : ring.sq_head + length xs + n ≤ u32_mod

  pub fewer :
      (bits m n : ℕ) (ring : GwRing Address W) (xs : List (GwRingSqe Address))
      → n ≤ m
      → Room bits m ring xs
      → Room bits n ring xs
  fewer bits m n ring xs h room = record {
    submitted = room.submitted;
    free = omega (arith, room.free);
    unwrapped = omega (arith, room.unwrapped);
  }

  slot_of :
      (ring : GwRing Address W) (idx : ℕ)
      → (gw_ring_get_sqe ring).0 ≡ some idx
      → idx ≡ bit_and ring.sq_tail ring.sq_mask
  unfolding gw_ring_get_sqe
  slot_of ring idx e = ground arith

  same_sq :
      (ring : GwRing Address W)
      → ((gw_ring_get_sqe ring).1.sqes ≡ ring.sqes)
        × ((gw_ring_get_sqe ring).1.sq_mask ≡ ring.sq_mask)
        × ((gw_ring_get_sqe ring).1.sq_head ≡ ring.sq_head)
  unfolding gw_ring_get_sqe
  same_sq ring = ground arith

module _ {J W : Type 0} (io : IoWq W (GwRingSqe Address)) (fuel : ℕ) where
  -- With room, the submission that is prepared becomes the last.
  pub prepare_lem :
      (prep : GwRingSqe Address → GwRingSqe Address) (sqe : GwRingSqe Address) (ctx : TgBotCtx J W)
      (bits n : ℕ) (xs : List (GwRingSqe Address))
      → ((old : GwRingSqe Address) → prep old ≡ sqe)
      → Room bits (suc n) ctx.ring xs
      → (ring' : GwRing Address W) × (prepare io fuel prep (take_sqe io fuel ctx)
          ≡ some (record ctx { ring = ring' }))
        × Room bits n ring' (xs ++ sqe ∷ [])
  unfolding prepare take_sqe
  prepare_lem prep sqe ctx bits n xs fixed room =
      let c = room.submitted in
      let (idx, got, filled) =
        gw_ring_get_sqe-fill ctx.ring bits xs sqe c (omega (arith, room.free))
          (omega (arith, room.unwrapped)) in
      let (sqes, mask, head) = same_sq ctx.ring in
      let below : idx < length ctx.ring.sqes = omega (
        arith,
        slot_of ctx.ring idx got,
        c.sized,
        slot-lt bits ctx.ring.sq_tail ctx.ring.sq_mask c.power,
      ) in
      let inside : idx < length (gw_ring_get_sqe ctx.ring).1.sqes = rw sqes below in
      let (old, read) = get_elem?-lt (gw_ring_get_sqe ctx.ring).1.sqes idx inside in
      (
        fill_sqe idx sqe (gw_ring_get_sqe ctx.ring).1,
        rw (got, read, fixed old, take_sqe, prepare) refl,
        record {
          submitted = filled;
          free = omega (arith, room.free, mask, length-append xs (sqe ∷ []));
          unwrapped = omega (arith, room.unwrapped, head, length-append xs (sqe ∷ []));
        },
      )

-- The submission that asks for the updates from an identifier on.
abbrev pub poll : ℤ → GwRingSqe Address
poll offset =
    tg_api_call 0
      (record { op = tg_api_get_updates; ctx = tctx_at; updates_p = updates_at; offset = offset })

pub handle_fixed :
    (at : Address) (old : GwRingSqe Address)
    → prep_handle at old ≡ tg_module_handle 0 (record { ctx = ctx_at; update = at })
handle_fixed at (nop _) = refl
handle_fixed at (tg_api_call _ _) = refl
handle_fixed at (tg_module_handle _ _) = refl
handle_fixed at (other _ _) = refl

pub poll_fixed : (offset : ℤ) (old : GwRingSqe Address) → prep_get_updates offset old ≡ poll offset
poll_fixed offset (nop _) = refl
poll_fixed offset (tg_api_call _ _) = refl
poll_fixed offset (tg_module_handle _ _) = refl
poll_fixed offset (other _ _) = refl
