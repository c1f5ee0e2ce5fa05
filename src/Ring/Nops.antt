-- ===== src/Ring/Nops.antt =====
-- Submissions of GW_RING_OP_NOP (core/ring.c) complete at once, in order.
use gnuweeb_bot.Common.{
  ℕ, suc, ◌+◌, ◌<◌, ◌≤◌, ◌≡◌, refl, sym, ap, ◌∙◌, Bool, true, false, some, List, [], ◌∷◌, ◌++◌, map,
  arith, length, length-append, append_assoc, append-nil, if◌then◌else◌,
}
use mathlib.Core.Path.{subst}
use gnuweeb_bot.Common.Int.{ℤ, pos}
use gnuweeb_bot.Common.Word.{u32_mod}
use gnuweeb_bot.Ring.{GwRing, GwRingSqe, GwRingCqe, nop}
use gnuweeb_bot.Ring.Complete.{post_cqe}
use gnuweeb_bot.Ring.Submit.{IoWq, submit_sqe, issue_op_nop, gw_ring_submit}
use gnuweeb_bot.Ring.Slots.{Submitted, Completed, post_cqe-Completed}
use gnuweeb_bot.Ring.Issue.{issue_all, gw_ring_submit-issue_all, gw_ring_submit-Submitted}

-- The completion of a NOP with this `user_data`.
abbrev pub nop_cqe : ℕ → GwRingCqe
nop_cqe d = record { op = 0; res = pos 0; flags = 0; user_data = d }

length-map {ℓ ℓ'} :
    {A : Type ℓ} {B : Type ℓ'} (f : A → B) (xs : List A) → length (map f xs) ≡ length xs
length-map f [] = refl
length-map f (x ∷ xs) = ap suc (length-map f xs)

module _ {P W : Type 0} (io : IoWq W (GwRingSqe P)) where
  same_cq :
      (ring : GwRing P W) (sqe : GwRingSqe P) (res : ℤ)
      → ((post_cqe ring sqe res).2.cq_mask ≡ ring.cq_mask)
        × ((post_cqe ring sqe res).2.cq_head ≡ ring.cq_head)
  unfolding post_cqe
  same_cq ring sqe res = ground arith

  issue_nops :
      (ds : List ℕ) (ring : GwRing P W) (bits ret : ℕ) (ys : List GwRingCqe)
      → Completed bits ring ys
      → length ys + length ds ≤ ring.cq_mask + 1
      → ring.cq_head + length ys + length ds ≤ u32_mod
      → (ring' : GwRing P W) × (issue_all io (map nop ds) ring ret []
          ≡ some (ret + length ds, [], ring'))
        × Completed bits ring' (ys ++ map nop_cqe ds)
  unfolding submit_sqe issue_op_nop
  issue_nops [] ring bits ret ys c fits unwrapped =
      let same : ret ≡ ret + 0 = omega arith in
      (ring, ap (λ (n : ℕ). some (n, [], ring)) same, rw (append-nil ys) c)
  issue_nops (d ∷ ds) ring bits ret ys c fits unwrapped =
      let (posted, c1) = post_cqe-Completed ring bits ys (nop d) (pos 0) c in
      let ok : (post_cqe ring (nop d) (pos 0)).0 ≡ true = ground arith in
      let (mask, head) = same_cq ring (nop d) (pos 0) in
      let ring1 : GwRing P W = (post_cqe ring (nop d) (pos 0)).2 in
      let c2 : Completed bits ring1 (ys ++ nop_cqe d ∷ []) =
        subst (λ (b : Bool). Completed bits ring1 (ys ++ (if b then nop_cqe d ∷ [] else []))) ok
          c1 in
      let (ring', e, c') =
        issue_nops ds ring1 bits (ret + 1) (ys ++ nop_cqe d ∷ []) c2
          (omega (arith, mask, length-append ys (nop_cqe d ∷ [])))
          (omega (arith, head, length-append ys (nop_cqe d ∷ []))) in
      let count : ret + 1 + length ds ≡ ret + length (d ∷ ds) = omega arith in
      (
        ring',
        rw (issue_all, ok) (e ∙ ap (λ (n : ℕ). some (n, [], ring')) count),
        rw (sym (append_assoc ys (nop_cqe d ∷ []) (map nop_cqe ds))) c',
      )

  -- NOPs on a ring that is not stopped, with room for their completions and a `cq_tail` that does
  -- not wrap on the way: gw_ring_submit returns their number, none is left, and their completions
  -- follow those that were there, in the order of submission.
  pub gw_ring_submit-nops :
      (fuel : ℕ) (ring : GwRing P W) (bits cq_bits : ℕ) (ds : List ℕ) (ys : List GwRingCqe)
      → Submitted bits ring (map nop ds)
      → Completed cq_bits ring ys
      → ring.should_stop ≡ false
      → length ds < fuel
      → length ys + length ds ≤ ring.cq_mask + 1
      → ring.cq_head + length ys + length ds ≤ u32_mod
      → (ring' : GwRing P W) × (gw_ring_submit io fuel ring ≡ some (pos (length ds), [], ring'))
        × Submitted bits ring' []
        × Completed cq_bits ring' (ys ++ map nop_cqe ds)
  gw_ring_submit-nops fuel ring bits cq_bits ds ys sq cq going enough fits unwrapped =
      let (mid, issued, done) = issue_nops ds ring cq_bits 0 ys cq fits unwrapped in
      let sqes : List (GwRingSqe P) = map nop ds in
      let count : length sqes ≡ length ds = length-map nop ds in
      let number : 0 + length ds ≡ length ds = omega arith in
      let counted = issued ∙ ap (λ (n : ℕ). some (n, [], mid)) number in
      let short : length sqes < fuel = omega arith in
      let left : GwRing P W = record mid { sq_head = ring.sq_tail } in
      let runs : gw_ring_submit io fuel ring ≡ some (pos (length ds), [], left) =
        gw_ring_submit-issue_all io fuel ring bits sqes sq short ∙ rw (counted, going) refl in
      let (n, same, most, empty) =
        gw_ring_submit-Submitted io fuel ring left bits sqes _ _ sq short going runs in
      (left, runs, empty, done)
