-- ===== src/Ring/Pool.antt =====
-- The work queue of core/workqueue.c as what the ring (core/ring.c) uses, and who frees the update
-- of a submission.
use gnuweeb_bot.Common.{
  ℕ, ◌≡◌, ◌⊎◌, Bool, true, false, Option, none, some, List, [], ◌∷◌, if◌then◌else◌,
}
use gnuweeb_bot.Common.Int.{ℤ, pos}
use gnuweeb_bot.Common.Errno.{eownerdead}
use gnuweeb_bot.Workqueue.{Workqueue, Work, Signal, Callback}
use gnuweeb_bot.Workqueue.Submit.{queue_work}
use gnuweeb_bot.Workqueue.Submit.Outcomes.{IsFinal, queue_work-IsFinal}
use gnuweeb_bot.Ring.Submit.{IoWq}

-- The addresses of gw_ring_wq_sqe_exec and gw_ring_wq_sqe_delete.
abbrev pub exec_callback : Callback
exec_callback = 0

abbrev pub delete_callback : Callback
delete_callback = 1

-- The surroundings of one call of punt_to_io_wq: whether `malloc` succeeds, the results of
-- `thread_create`, and what the other threads do while the caller sleeps in queue_work.
pub record Turn (A : Type 0) : Type 0 where
  pub found : Bool
  pub create : ℕ → ℤ
  pub waits : List (Workqueue A → Workqueue A)

-- The work queue with the turns to come; after the last one there is no memory.
pub record Pool (A : Type 0) : Type 0 where
  pub wq : Workqueue A
  pub turns : List (Turn A)

module _ {A : Type 0} where
  abbrev pub sqe_work : A → Work A
  sqe_work arg = record { func = some exec_callback; arg = arg; deleter = some delete_callback }

  abbrev pub pool_allocate_at : List (Turn A) → Pool A → Bool × Pool A
  pool_allocate_at [] pool = (false, pool)
  pool_allocate_at (turn ∷ turns) pool =
      if turn.found then (true, pool) else (false, record pool { turns = turns })

  abbrev pub pool_allocate : Pool A → Bool × Pool A
  pool_allocate pool = pool_allocate_at pool.turns pool

  abbrev pub returned : List (Turn A) → Option ℤ × Workqueue A × List Signal → Option (ℤ × Pool A)
  returned turns (none, wq, signals) = none
  returned turns (some ret, wq, signals) = some (ret, record { wq = wq; turns = turns })

  unfoldable pub pool_queue_at : List (Turn A) → Workqueue A → A → Option (ℤ × Pool A)
  unfolding queue_work
  pool_queue_at [] wq arg = none
  pool_queue_at (turn ∷ turns) wq arg =
      returned turns (queue_work turn.create turn.waits wq (sqe_work arg))

  pub pool_final :
      (turns : List (Turn A)) (wq : Workqueue A) (w' : Pool A) (arg : A) (ret : ℤ)
      → pool_queue_at turns wq arg ≡ some (ret, w')
      → (ret ≡ pos 0) ⊎ (ret ≡ eownerdead)
  unfolding pool_queue_at
  pool_final [] wq w' arg ret e = absurd (cc)
  pool_final (turn ∷ turns) wq w' arg ret e =
      outcome (queue_work turn.create turn.waits wq (sqe_work arg))
        (queue_work-IsFinal turn.create turn.waits wq (sqe_work arg)) e
    where
      outcome :
          (out : Option ℤ × Workqueue A × List Signal)
          → IsFinal out.0
          → returned turns out ≡ some (ret, w')
          → (ret ≡ pos 0) ⊎ (ret ≡ eownerdead)
      outcome (none, left, signals) h same = absurd (cc)
      outcome (some status, left, signals) h same = let agree : status ≡ ret = cc in rw (← agree) h

  abbrev pub pool_io_wq : IoWq (Pool A) A
  pool_io_wq = record {
    allocate = pool_allocate;
    queue_work = λ pool arg. pool_queue_at pool.turns pool.wq arg;
    final = λ w w' arg ret. pool_final w.turns w.wq w' arg ret;
  }
