-- ===== src/Ring/System/Read.antt =====
-- The completions of a ring while workers post them and a reader visits them (core/ring.c,
-- include/gw/ring.h).
use gnuweeb_bot.Common.{
  ℕ, ◌%◌, ◌≡◌, refl, sym, ◌∙◌, true, Option, none, some, List, [], ◌∷◌, ◌++◌, arith, length,
  length-append, append_assoc, get_elem?,
}
use mathlib.Core.Path.{subst}
use gnuweeb_bot.Common.Int.{ℤ}
use gnuweeb_bot.Common.Word.{u32_mod, u32_add}
use gnuweeb_bot.Common.Circular.{Circular, pop-Circular, counters_differ}
use gnuweeb_bot.Ring.{GwRing, GwRingSqe, GwRingCqe}
use gnuweeb_bot.Ring.Complete.{post_cqe, cqe_of, gw_ring_load_head_cqe, gw_ring_cq_advance}
use gnuweeb_bot.Ring.Slots.{Completed, post_cqe-Completed}
use gnuweeb_bot.Ring.System.{Visit}

-- A visit has read the oldest completions, and stands behind them.
abbrev pub Reads : Option Visit → List GwRingCqe → ℕ → Type 0
Reads none cqs cq_head = Unit
Reads (some v) cqs cq_head =
    (rest : List GwRingCqe) × (cqs ≡ v.read ++ rest) × (v.head ≡ u32_add cq_head (length v.read))

-- The completions posted are those given back and those between the counters, in order.
pub record CqHeld (bits : ℕ) (cqes : List GwRingCqe) (mask cq_head cq_tail : ℕ)
    (posted seen : List GwRingCqe) (visit : Option Visit) : Type 0 where
  pub cqs : List GwRingCqe
  pub completions : Circular bits cqes mask cq_head cq_tail cqs
  pub order : posted ≡ seen ++ cqs
  pub counted : cq_head ≡ length seen % u32_mod
  pub reads : Reads visit cqs cq_head

abbrev pub CqSide :
    {P W : Type 0} → ℕ → GwRing P W → (posted seen : List GwRingCqe) → Option Visit → Type 0
CqSide bits ring posted seen visit =
    CqHeld bits ring.cqes ring.cq_mask ring.cq_head ring.cq_tail posted seen visit

-- Past the first items, the others are left.
advance_past {ℓ} :
    {A : Type ℓ} {bits mask tail : ℕ} {array : List A} (head : ℕ) (xs ys : List A)
    → Circular bits array mask head tail (xs ++ ys)
    → Circular bits array mask (u32_add head (length xs)) tail ys
advance_past {bits = bits} {mask} {tail} {array} head [] ys c =
    let same : head ≡ u32_add head 0 = omega (arith, c.head_fits) in
    subst (λ (i : ℕ). Circular bits array mask i tail ys) same c
advance_past {bits = bits} {mask} {tail} {array} head (x ∷ xs) ys c =
    let moved : u32_add (u32_add head 1) (length xs) ≡ u32_add head (length (x ∷ xs)) =
      omega arith in
    subst (λ (i : ℕ). Circular bits array mask i tail ys) moved
      (advance_past (u32_add head 1) xs ys (pop-Circular c).1)

Reads-snoc :
    (visit : Option Visit) (cqs : List GwRingCqe) (cq_head : ℕ) (cqe : GwRingCqe)
    → Reads visit cqs cq_head
    → Reads visit (cqs ++ cqe ∷ []) cq_head
Reads-snoc none cqs cq_head cqe r = tt
Reads-snoc (some v) cqs cq_head cqe (rest, split, at) =
    (rest ++ cqe ∷ [], rw split (append_assoc v.read rest (cqe ∷ [])), at)

module _ {P W : Type 0} {bits : ℕ} (ring : GwRing P W) {posted seen : List GwRingCqe} where
  -- One more completion is posted.
  pub post-CqSide :
      {visit : Option Visit} (sqe : GwRingSqe P) (res : ℤ)
      → (post_cqe ring sqe res).0 ≡ true
      → CqSide bits ring posted seen visit
      → CqSide bits (post_cqe ring sqe res).2 (posted ++ cqe_of sqe res ∷ []) seen visit
  unfolding post_cqe
  post-CqSide {visit} sqe res ok c =
      let cqe = cqe_of sqe res in
      let posts = (post_cqe-Completed ring bits c.cqs sqe res c.completions).1 in
      record {
        cqs = c.cqs ++ cqe ∷ [];
        completions = rw ok at posts;
        order = rw c.order (append_assoc seen c.cqs (cqe ∷ []));
        counted = ground (arith, c.counted);
        reads =
            subst (λ (i : ℕ). Reads visit (c.cqs ++ cqe ∷ []) i) (ground arith)
              (Reads-snoc visit c.cqs ring.cq_head cqe c.reads);
      }

  -- A visit starts.
  pub begin-CqSide :
      CqSide bits ring posted seen none
      → CqSide bits ring posted seen (some (record { head = ring.cq_head; read = [] }))
  begin-CqSide c = record {
    cqs = c.cqs;
    completions = c.completions;
    order = c.order;
    counted = c.counted;
    reads = (c.cqs, refl, omega (arith, c.completions.head_fits));
  }

  -- What it still has to read.
  pub ahead :
      (v : Visit)
      → (c : CqSide bits ring posted seen (some v))
      → Circular bits ring.cqes ring.cq_mask v.head ring.cq_tail c.reads.0
  ahead v c =
      let (rest, split, at) = c.reads in
      let all : Completed bits ring (v.read ++ rest) = rw split at c.completions in
      rw at (advance_past ring.cq_head v.read rest all)

  -- It reads the next one.
  pub next-CqSide :
      (v : Visit) (idx : ℕ) (cqe : GwRingCqe)
      → gw_ring_load_head_cqe ring v.head ≡ some idx
      → get_elem? ring.cqes idx ≡ some cqe
      → CqSide bits ring posted seen (some v)
      → CqSide bits ring posted seen
          (some (record { head = u32_add v.head 1; read = v.read ++ cqe ∷ [] }))
  unfolding gw_ring_load_head_cqe
  next-CqSide v idx cqe at_idx found c = from c.reads.0 refl
    where
      from :
          (rest : List GwRingCqe)
          → c.reads.0 ≡ rest
          → CqSide bits ring posted seen
              (some (record { head = u32_add v.head 1; read = v.read ++ cqe ∷ [] }))
      from [] e = let empty = counters_differ c.reads.0 (ahead v c) in absurd (cc (rw e at empty))
      from (next_cqe ∷ rest) e =
          let left : Circular bits ring.cqes ring.cq_mask v.head ring.cq_tail (next_cqe ∷ rest) =
            rw e at (ahead v c) in
          let differ = counters_differ (next_cqe ∷ rest) left in
          let read = (pop-Circular left).0 in
          let same : next_cqe ≡ cqe = ground arith in
          record {
            cqs = c.cqs;
            completions = c.completions;
            order = c.order;
            counted = c.counted;
            reads = (
              rest,
              c.reads.1 ∙ rw (e, same) (sym (append_assoc v.read (cqe ∷ []) rest)),
              omega (arith, c.reads.2, length-append v.read (cqe ∷ [])),
            );
          }

  -- It ends, and gives back what it has read.
  pub end-CqSide :
      (v : Visit)
      → CqSide bits ring posted seen (some v)
      → CqSide bits (gw_ring_cq_advance ring (length v.read)) posted (seen ++ v.read) none
  unfolding gw_ring_cq_advance
  end-CqSide v c =
      let (rest, split, at) = c.reads in
      let all : Completed bits ring (v.read ++ rest) = rw split at c.completions in
      record {
        cqs = rest;
        completions = advance_past ring.cq_head v.read rest all;
        order = c.order ∙ rw split (sym (append_assoc seen v.read rest));
        counted = omega (arith, c.counted, length-append seen v.read);
        reads = tt;
      }
