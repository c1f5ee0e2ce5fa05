-- ===== src/Workqueue/Store.antt =====
-- What the circular list of core/workqueue.c stores: of the works accepted so far, in order, first
-- those taken by workers, then those cleared by destroy_workqueue, then those still pending.
use gnuweeb_bot.Common.{
  ℕ, zero, suc, ◌+◌, ◌<◌, ◌≡◌, refl, sym, ◌∙◌, Bool, true, false, some, List, [], ◌∷◌, ◌++◌,
  append-nil, append_assoc, arith, leb, ◌==◌, length, bit_and, set, get_elem?,
}
use gnuweeb_bot.Common.Word.{u32_add, llabs_diff}
use gnuweeb_bot.Common.Circular.{Circular, push-Circular, pop-Circular, counters_differ, looks_full}
use gnuweeb_bot.Workqueue.{Workqueue, Work, Call}
use gnuweeb_bot.Workqueue.Destroy.{
  delete_calls, clear_pending_works, clear_fuel, destroy_begin, wake_up_all_workers,
}

-- The calls that clearing these works makes.
abbrev pub all_deletes : {A : Type 0} → List (Work A) → List (Call A)
all_deletes [] = []
all_deletes (work ∷ works) = delete_calls work ++ all_deletes works

module _ {A : Type 0} where
  pub record Stored (stop : Bool) (max : ℕ) (array : List (Work A)) (mask head tail : ℕ)
      (accepted taken : List (Work A)) (cleared : List (Call A)) : Type 0 where
    pub bits : ℕ
    pub dropped : List (Work A)
    pub pending : List (Work A)
    pub ring : Circular bits array mask head tail pending
    pub capacity : max ≡ mask + 1
    pub order : accepted ≡ taken ++ (dropped ++ pending)
    pub calls : cleared ≡ all_deletes dropped
    pub going : stop ≡ false → dropped ≡ []
    pub stopped : stop ≡ true → pending ≡ []

  module _ {max mask head tail : ℕ} {array : List (Work A)} {accepted taken : List (Work A)}
      {cleared : List (Call A)} where
    -- A work that is accepted goes to the end.
    pub accept-Stored :
        {stop : Bool} (work : Work A)
        → stop ≡ false
        → leb max (llabs_diff tail head) ≡ false
        → Stored stop max array mask head tail accepted taken cleared
        → Stored stop max
            (set array (bit_and tail mask) work)
            mask
            head
            (u32_add tail 1)
            (accepted ++ work ∷ [])
            taken
            cleared
    accept-Stored work runs free v = record {
      bits = v.bits;
      dropped = v.dropped;
      pending = v.pending ++ work ∷ [];
      ring = push-Circular work v.ring (ground (arith, looks_full v.ring, v.capacity));
      capacity = v.capacity;
      order = rw v.order (simp append_assoc);
      calls = v.calls;
      going = v.going;
      stopped = λ e. cc;
    }

    -- Where the counters differ a worker takes the oldest pending work.
    pub take-Stored :
        {stop : Bool}
        → (head == tail) ≡ false
        → Stored stop max array mask head tail accepted taken cleared
        → (work : Work A) × (get_elem? array (bit_and head mask) ≡ some work)
          × Stored stop max array mask (u32_add head 1) tail accepted (taken ++ work ∷ []) cleared
    take-Stored {stop} differ v = from v.pending refl
      where
        from :
            (works : List (Work A))
            → v.pending ≡ works
            → (work : Work A) × (get_elem? array (bit_and head mask) ≡ some work)
              × Stored stop max array mask
                  (u32_add head 1)
                  tail
                  accepted
                  (taken ++ work ∷ [])
                  cleared
        from [] e =
            let empty = counters_differ v.pending v.ring in absurd (cc (sym differ ∙ rw e at empty))
        from (work ∷ works) e =
            let ring : Circular v.bits array mask head tail (work ∷ works) = rw e at v.ring in
            let runs : stop ≡ false = ground (arith, v.stopped) in
            let popped = pop-Circular ring in
            (
              work,
              popped.0,
              record {
                bits = v.bits;
                dropped = [];
                pending = works;
                ring = popped.1;
                capacity = v.capacity;
                order = v.order ∙ rw (v.going runs, e) (simp append_assoc);
                calls = v.calls ∙ rw (v.going runs);
                going = λ _. refl;
                stopped = λ stops. cc;
              },
            )

  -- Clearing calls the deleter of each pending work, in order, and leaves none; one lap more than
  -- there are works is enough fuel.
  pub clear_pending_works_lem :
      (fuel bits : ℕ) (works : List (Work A)) (wq : Workqueue A)
      → length works < fuel
      → Circular bits wq.work_list wq.mask wq.head wq.tail works
      → (clear_pending_works fuel wq ≡ some (all_deletes works, record wq { head = wq.tail }))
        × Circular bits wq.work_list wq.mask wq.tail wq.tail []
  unfolding clear_pending_works
  clear_pending_works_lem zero bits works wq h c = absurd (omega arith)
  clear_pending_works_lem (suc fuel) bits [] wq h c =
      let same : wq.head ≡ wq.tail = omega arith in
      (
        ground arith,
        record {
          small = c.small;
          power = c.power;
          sized = c.sized;
          head_fits = omega arith;
          tail_at = omega arith;
          room = omega arith;
          holds = tt;
        },
      )
  clear_pending_works_lem (suc fuel) bits (work ∷ works) wq h c =
      let (read, rest) = pop-Circular c in
      let ih =
        clear_pending_works_lem fuel bits works (record wq { head = u32_add wq.head 1 })
          (omega arith) rest in
      (rw (counters_differ (work ∷ works) c, read, ih.0), ih.1)

  -- The first critical section of destroy_workqueue clears what is pending and stops the queue.
  pub destroy_begin_lem :
      (wq : Workqueue A) {accepted taken : List (Work A)} {cleared : List (Call A)}
      → Stored false wq.attr.max_pending_works wq.work_list wq.mask wq.head wq.tail accepted taken
          cleared
      → (calls : List (Call A)) × (destroy_begin wq
          ≡ some (
            calls,
            record wq { should_stop = true; head = wq.tail },
            wake_up_all_workers (record wq { should_stop = true; head = wq.tail }),
          ))
        × Stored true wq.attr.max_pending_works wq.work_list wq.mask wq.tail wq.tail accepted taken
            calls
  unfolding destroy_begin
  destroy_begin_lem wq v =
      let (clears, ring) =
        clear_pending_works_lem (clear_fuel wq) v.bits v.pending (record wq { should_stop = true })
          (omega (arith, v.ring.room)) v.ring in
      (
        all_deletes v.pending,
        rw (clears, destroy_begin),
        record {
          bits = v.bits;
          dropped = v.pending;
          pending = [];
          ring = ring;
          capacity = v.capacity;
          order = v.order ∙ rw (v.going refl) (simp append-nil);
          calls = refl;
          going = λ e. cc;
          stopped = λ _. refl;
        },
      )
