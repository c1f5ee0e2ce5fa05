-- ===== src/Workqueue/Submit/Outcomes.antt =====
-- When queue_work (core/workqueue.c) accepts a work, sleeps or fails.
use gnuweeb_bot.Common.{
  ℕ, ◌+◌, ◌≡◌, refl, ◌⊎◌, inl, inr, Option, none, some, List, [], ◌∷◌, ◌++◌, arith, leb, ◌||◌,
  if◌then◌else◌, length,
}
use gnuweeb_bot.Common.Int.{ℤ, pos}
use gnuweeb_bot.Common.Errno.{eownerdead}
use gnuweeb_bot.Common.Word.{u32_mod, u32_sub}
use gnuweeb_bot.Common.Circular.{looks_full}
use gnuweeb_bot.Workqueue.{Workqueue, Work, Call, Signal}
use gnuweeb_bot.Workqueue.Grown.{Lap, stops, sleeps, accepts, queue_work_lap-Lap}
use gnuweeb_bot.Workqueue.Submit.{
  queue_work_lap, queue_work_wake, queue_work_waits, queue_work, count_pending_works,
}
use gnuweeb_bot.Workqueue.System.Inv.{StoredIn}

-- The statuses that reach a caller.
abbrev pub IsFinal : Option ℤ → Type 0
IsFinal none = Unit
IsFinal (some ret) = (ret ≡ pos 0) ⊎ (ret ≡ eownerdead)

module _ {A : Type 0} (create : ℕ → ℤ) where
  Lap-IsFinal :
      (wq : Workqueue A) (work : Work A) (out : Option ℤ × Workqueue A × List Signal)
      → Lap wq work out
      → IsFinal out.0
  Lap-IsFinal wq work out (stops _ e) = rw e (inr refl)
  Lap-IsFinal wq work out (sleeps _ _ e) = rw e tt
  Lap-IsFinal wq work out (accepts _ _ _ _ _ e) = rw e (inl refl)

  waits-IsFinal :
      (waits : List (Workqueue A → Workqueue A)) (work : Work A)
      (lap : Option ℤ × Workqueue A × List Signal)
      → IsFinal lap.0
      → IsFinal (queue_work_waits create waits work lap).0
  unfolding queue_work_waits queue_work_wake
  waits-IsFinal [] work lap h = h
  waits-IsFinal (others ∷ waits) work (some ret, wq, signals) h = h
  waits-IsFinal (others ∷ waits) work (none, wq, signals) h =
      let wq' = others wq in
      let woken = record wq' { nr_sleeping_queuers = u32_sub wq'.nr_sleeping_queuers 1 } in
      let (ret, next, more) = queue_work_lap create woken work in
      waits-IsFinal waits work (ret, next, signals ++ more)
        (Lap-IsFinal woken work _ (queue_work_lap-Lap create woken work))

  -- Whatever the other threads do to the queue during its waits, queue_work returns no status but 0
  -- and -EOWNERDEAD; -EAGAIN stays inside.
  pub queue_work-IsFinal :
      (waits : List (Workqueue A → Workqueue A)) (wq : Workqueue A) (work : Work A)
      → IsFinal (queue_work create waits wq work).0
  unfolding queue_work
  queue_work-IsFinal waits wq work =
      waits-IsFinal waits work (queue_work_lap create wq work)
        (Lap-IsFinal wq work _ (queue_work_lap-Lap create wq work))

  -- One lap of queue_work on a queue whose list holds the pending works: a stopped queue refuses, a
  -- blocked or full one puts the caller to sleep, and so does one whose tail has wrapped past 2^32
  -- ahead of its head; any other accepts.
  pub queue_work_lap-capacity :
      (wq : Workqueue A) (work : Work A) {accepted taken : List (Work A)} {cleared : List (Call A)}
      (v : StoredIn wq accepted taken cleared)
      → (queue_work_lap create wq work).0 ≡ (
          if wq.should_stop
          then some eownerdead
          else if wq.queue_is_blocked
              || (leb wq.attr.max_pending_works (length v.pending)
                  || leb u32_mod (wq.head + length v.pending))
          then none
          else some (pos 0))
  queue_work_lap-capacity wq work v = decide (queue_work_lap-Lap create wq work)
    where
      full : leb wq.attr.max_pending_works (count_pending_works wq) ≡ (
          leb wq.attr.max_pending_works (length v.pending)
          || leb u32_mod (wq.head + length v.pending))
      full = ground (arith, looks_full v.ring, v.capacity)

      decide :
          {out : Option ℤ × Workqueue A × List Signal}
          → Lap wq work out
          → out.0 ≡ (
              if wq.should_stop
              then some eownerdead
              else if wq.queue_is_blocked
                  || (leb wq.attr.max_pending_works (length v.pending)
                      || leb u32_mod (wq.head + length v.pending))
              then none
              else some (pos 0))
      decide (stops stop e) = rw (e, stop)
      decide (sleeps going wait e) = rw (e, going, ← full, wait)
      decide (accepts _ _ going free _ e) = rw (e, going, ← full, free)
