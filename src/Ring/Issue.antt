-- ===== src/Ring/Issue.antt =====
-- gw_ring_submit (core/ring.c) issues the submissions in order, and ends.
use gnuweeb_bot.Common.{
  ℕ, zero, suc, ◌+◌, ◌<◌, ◌≤◌, ◌≡◌, refl, sym, ◌∙◌, Bool, false, Option, none, some, List, [], ◌∷◌,
  ◌++◌, arith, length, if◌then◌else◌, Option-cases, inl, inr,
}
use mathlib.Core.Path.{subst}
use gnuweeb_bot.Common.Int.{ℤ, pos}
use gnuweeb_bot.Common.Errno.{eownerdead}
use gnuweeb_bot.Common.Word.{u32_add}
use gnuweeb_bot.Common.Circular.{Circular, pop-Circular, counters_differ}
use gnuweeb_bot.Ring.{GwRing, GwRingSqe, nop, tg_api_call, tg_module_handle, other}
use gnuweeb_bot.Ring.Complete.{post_cqe}
use gnuweeb_bot.Ring.Submit.{
  IoWq, submit_sqe, submit_from, gw_ring_submit, issue_op_nop, issue_op_tg_api_call,
  issue_op_module_handle, punt_to_io_wq,
}
use gnuweeb_bot.Ring.Slots.{Submitted}

module _ {P W : Type 0} (io : IoWq W (GwRingSqe P)) where
  -- The submissions of a list, issued one after the other, with no ring of submissions: how many
  -- were issued, which updates were freed.
  abbrev pub issue_all :
      List (GwRingSqe P) → GwRing P W → ℕ → List P → Option (ℕ × List P × GwRing P W)
  issue_all [] ring ret freed = some (ret, freed, ring)
  issue_all (sqe ∷ sqes) ring ret freed = elim (submit_sqe io ring sqe) [
    | none ↦ none
    | some (ok, more, ring') ↦ issue_all sqes ring' (if ok then ret + 1 else ret) (freed ++ more)
  ]

  -- Issuing leaves the submission side alone.
  pub SameSq : GwRing P W → GwRing P W → Type 0
  SameSq ring ring' =
      (ring'.sqes ≡ ring.sqes)
      × (ring'.sq_mask ≡ ring.sq_mask)
      × (ring'.sq_head ≡ ring.sq_head)
      × (ring'.sq_tail ≡ ring.sq_tail)
      × (ring'.should_stop ≡ ring.should_stop)

  submit_sqe-SameSq :
      (ring ring' : GwRing P W) (sqe : GwRingSqe P) (ok : Bool) (more : List P)
      → submit_sqe io ring sqe ≡ some (ok, more, ring')
      → SameSq ring ring'
  unfolding submit_sqe issue_op_nop issue_op_tg_api_call issue_op_module_handle punt_to_io_wq
      post_cqe SameSq
  submit_sqe-SameSq ring ring' (nop d) ok more e = ground arith
  submit_sqe-SameSq ring ring' (tg_api_call d call) ok more e = ground arith
  submit_sqe-SameSq ring ring' (tg_module_handle d handle) ok more e = ground arith
  submit_sqe-SameSq ring ring' (other k d) ok more e = ground arith

  -- The end of gw_ring_submit: `sq_head` has caught up.
  abbrev pub caught_up : ℕ → Option (ℕ × List P × GwRing P W) → Option (ℕ × List P × GwRing P W)
  caught_up sq_tail none = none
  caught_up sq_tail (some (ret, freed, ring)) = some (ret, freed, record ring { sq_head = sq_tail })

  same-Circular :
      (ring ring' : GwRing P W) (bits head tail : ℕ) (xs : List (GwRingSqe P))
      → SameSq ring ring'
      → Circular bits ring.sqes ring.sq_mask head tail xs
      → Circular bits ring'.sqes ring'.sq_mask head tail xs
  unfolding SameSq
  same-Circular ring ring' bits head tail xs (sqes, mask, _, _, _) c = rw (sqes, mask) c

  submit_from_lem :
      (fuel : ℕ) (ring : GwRing P W) (bits sq_head sq_tail : ℕ) (xs : List (GwRingSqe P)) (ret : ℕ)
      (freed : List P)
      → Circular bits ring.sqes ring.sq_mask sq_head sq_tail xs
      → length xs < fuel
      → submit_from io fuel ring sq_head sq_tail ret freed
        ≡ caught_up sq_tail (issue_all xs ring ret freed)
  unfolding submit_from
  submit_from_lem zero ring bits sq_head sq_tail xs ret freed c h = absurd (omega arith)
  submit_from_lem (suc fuel) ring bits sq_head sq_tail [] ret freed c h =
      let same : sq_head ≡ sq_tail = omega (arith, c.tail_at, c.head_fits) in
      rw (counters_differ [] c, same) refl
  submit_from_lem (suc fuel) ring bits sq_head sq_tail (sqe ∷ xs) ret freed c h =
      let (read, rest) = pop-Circular c in
      elim (Option-cases (submit_sqe io ring sqe)) [
        | inl gone ↦ rw (counters_differ (sqe ∷ xs) c, read, issue_all, gone) refl
        | inr ((ok, more, ring'), e) ↦
            rw (counters_differ (sqe ∷ xs) c, read, issue_all, e)
              (submit_from_lem fuel ring' bits (u32_add sq_head 1) sq_tail xs
                (if ok then ret + 1 else ret) (freed ++ more)
                (same-Circular ring ring' bits _ sq_tail xs
                  (submit_sqe-SameSq ring ring' sqe ok more e) rest)
                (omega arith))
      ]

  abbrev pub as_status : Option (ℕ × List P × GwRing P W) → Option (ℤ × List P × GwRing P W)
  as_status none = none
  as_status (some (ret, freed, ring)) = some (pos ret, freed, ring)

  -- gw_ring_submit on a stopped ring returns -EOWNERDEAD and leaves everything; on any other ring it
  -- issues all submissions, the oldest first, returns how many it could issue, and moves `sq_head` up
  -- to `sq_tail`, those it could not issue included. One lap more than there are submissions is
  -- enough fuel.
  pub gw_ring_submit-issue_all :
      (fuel : ℕ) (ring : GwRing P W) (bits : ℕ) (xs : List (GwRingSqe P))
      → Submitted bits ring xs
      → length xs < fuel
      → gw_ring_submit io fuel ring ≡ (
          if ring.should_stop
          then some (eownerdead, [], ring)
          else as_status (caught_up ring.sq_tail (issue_all xs ring 0 [])))
  unfolding gw_ring_submit
  gw_ring_submit-issue_all fuel ring bits xs c h =
      let drained = submit_from_lem fuel ring bits ring.sq_head ring.sq_tail xs 0 [] c h in
      elim (Option-cases (issue_all xs ring 0 [])) [
        | inl gone ↦ rw (drained, gone) refl
        | inr ((ret, freed, ring'), e) ↦ rw (drained, e) refl
      ]

  same_trans : (a b c : GwRing P W) → SameSq a b → SameSq b c → SameSq a c
  unfolding SameSq
  same_trans a b c (p0, p1, p2, p3, p4) (q0, q1, q2, q3, q4) =
      (q0 ∙ p0, q1 ∙ p1, q2 ∙ p2, q3 ∙ p3, q4 ∙ p4)

  issue_all_lem :
      (xs : List (GwRingSqe P)) (ring ring' : GwRing P W) (ret ret' : ℕ) (freed freed' : List P)
      → issue_all xs ring ret freed ≡ some (ret', freed', ring')
      → SameSq ring ring' × (ret ≤ ret') × (ret' ≤ ret + length xs)
  unfolding SameSq
  issue_all_lem [] ring ring' ret ret' freed freed' e =
      let same : ring ≡ ring' = cc in
      let counts : ret ≡ ret' = cc in
      (rw same (refl, refl, refl, refl, refl), omega arith, omega arith)
  issue_all_lem (sqe ∷ xs) ring ring' ret ret' freed freed' e =
      elim (Option-cases (submit_sqe io ring sqe)) [
        | inl gone ↦
            let stuck : issue_all (sqe ∷ xs) ring ret freed ≡ none = rw (issue_all, gone) refl in
            absurd (cc)
        | inr ((ok, more, mid), first) ↦
            let step : issue_all (sqe ∷ xs) ring ret freed
                ≡ issue_all xs mid (if ok then ret + 1 else ret) (freed ++ more) =
              rw (issue_all, first) refl in
            let (same, lo, hi) =
              issue_all_lem xs mid ring' (if ok then ret + 1 else ret) ret' (freed ++ more) freed'
                (sym step ∙ e) in
            (
              same_trans ring mid ring' (submit_sqe-SameSq ring mid sqe ok more first) same,
              ground arith,
              ground arith,
            )
      ]

  drained-Submitted :
      (ring mid : GwRing P W) (bits : ℕ) (xs : List (GwRingSqe P))
      → SameSq ring mid
      → Submitted bits ring xs
      → Submitted bits (record mid { sq_head = ring.sq_tail }) []
  unfolding SameSq
  drained-Submitted ring mid bits xs (sqes, mask, _, tail, _) c = record {
    small = c.small;
    power = rw mask c.power;
    sized = rw (sqes, mask) c.sized;
    head_fits = omega (arith, c.tail_at);
    tail_at = omega (arith, tail, c.tail_at);
    room = omega arith;
    holds = tt;
  }

  -- Whenever gw_ring_submit returns on a ring that is not stopped, its status is at most the number
  -- of submissions, and none of them is left.
  pub gw_ring_submit-Submitted :
      (fuel : ℕ) (ring ring' : GwRing P W) (bits : ℕ) (xs : List (GwRingSqe P)) (ret : ℤ)
      (freed : List P)
      → Submitted bits ring xs
      → length xs < fuel
      → ring.should_stop ≡ false
      → gw_ring_submit io fuel ring ≡ some (ret, freed, ring')
      → (n : ℕ) × (ret ≡ pos n) × (n ≤ length xs) × Submitted bits ring' []
  unfolding SameSq
  gw_ring_submit-Submitted fuel ring ring' bits xs ret freed c h going e =
      let all = gw_ring_submit-issue_all fuel ring bits xs c h in
      elim (Option-cases (issue_all xs ring 0 [])) [
        | inl gone ↦
            let stuck : gw_ring_submit io fuel ring ≡ none = all ∙ (rw (gone, going) refl) in
            absurd (cc)
        | inr ((n, freed', mid), issued) ↦
            let result : gw_ring_submit io fuel ring
                ≡ some (pos n, freed', record mid { sq_head = ring.sq_tail }) =
              all ∙ (rw (issued, going) refl) in
            let left : record mid { sq_head = ring.sq_tail } ≡ ring' = cc in
            let (same, lo, hi) = issue_all_lem xs ring mid 0 n [] freed' issued in
            (
              n,
              cc,
              omega (arith, hi),
              subst (λ r. Submitted bits r []) left (drained-Submitted ring mid bits xs same c),
            )
      ]
