-- ===== src/Workqueue/System/Joined.antt =====
-- The joins of destroy_workqueue find every thread (core/workqueue.c), where thread_create succeeds.
use gnuweeb_bot.Common.{
  ℕ, zero, suc, ◌+◌, ◌<◌, ◌≡◌, ◌≢◌, refl, sym, ap, ◌∙◌, Bool, true, false, some, List, [], ◌∷◌,
  Bool-cases, inl, inr, arith, length, if◌then◌else◌,
}
use gnuweeb_bot.Workqueue.{WorkerThread}
use gnuweeb_bot.Workqueue.Grown.{wq_at}
use gnuweeb_bot.Workqueue.Hired.{Healthy}
use gnuweeb_bot.Workqueue.Worker.{WorkerState, unborn}
use gnuweeb_bot.Workqueue.Destroy.{join_all_workers, join_all_workers_from}
use gnuweeb_bot.Workqueue.System.{System}
use gnuweeb_bot.Workqueue.System.Inv.{Inv}
use gnuweeb_bot.Workqueue.System.Manned.{Manned, StaffedRun, StaffedRun-Manned}

module _ {A : Type 0} where
  abbrev is_born : WorkerState A → Bool
  is_born unborn = false
  is_born _ = true

  -- The numbers of the threads there are among `n` slots from slot `i` on.
  unfoldable pub born_from : ℕ → ℕ → (ℕ → WorkerState A) → List ℕ
  born_from zero i worker = []
  born_from (suc n) i worker =
      let rest = born_from n (i + 1) worker in if is_born (worker i) then i ∷ rest else rest

  is_born_of : (state : WorkerState A) → state ≢ unborn → is_born state ≡ true
  is_born_of unborn born = absurd (born refl)
  is_born_of _ born = refl

  module _ (returned : ℕ → ℕ) (same : (i : ℕ) → returned i ≡ i) where
    joins_born :
        (i : ℕ) (workers : List WorkerThread) (worker : ℕ → WorkerState A)
        → Healthy i workers
        → ((k : ℕ) → k < length workers → wq_at workers k ≡ is_born (worker (i + k)))
        → join_all_workers_from returned i workers ≡ some (born_from (length workers) i worker)
    unfolding join_all_workers_from born_from
    joins_born i [] worker h slots = refl
    joins_born i (slot ∷ workers) worker (id, marked, h) slots =
        let first : slot.wq ≡ is_born (worker i) =
          slots 0 (omega arith) ∙ ap (λ (k : ℕ). is_born (worker k)) (omega arith) in
        let rest = joins_born (i + 1) workers worker h (λ k inside.
          slots (suc k) (omega arith) ∙ ap (λ (k : ℕ). is_born (worker k)) (omega arith)) in
        elim (Bool-cases slot.wq) [
          | inl taken ↦ ground (arith, rest, same i)
          | inr free ↦ ground (arith, rest)
        ]

    -- From a good start with a slot for a worker, whose slots carry their numbers and are claimed
    -- exactly where they have a thread, in every order of steps in which the calls of thread_create
    -- succeed, each thread returning its own slot: the joins of destroy_workqueue join exactly the
    -- threads there are, in the order of their slots, and no assertion fails.
    pub joins_every_thread :
        {n q : ℕ} {start s : System A}
        → 0 < n
        → Inv n q start
        → Manned n start
        → StaffedRun n q start s
        → join_all_workers returned s.wq.workers ≡ some (born_from n 0 s.worker)
    unfolding join_all_workers
    joins_every_thread {n} {s = s} some_slot inv manned r =
        let (here, m) = StaffedRun-Manned some_slot inv manned r in
        let claims : (k : ℕ) → wq_at s.wq.workers k ≡ is_born (s.worker k) = λ k.
          elim (Bool-cases (wq_at s.wq.workers k)) [
            | inl taken ↦ taken ∙ sym (is_born_of (s.worker k) (m.claimed k taken))
            | inr free ↦ free ∙ sym (ap is_born (here.counted.free_slots k free))
          ] in
        joins_born 0 s.wq.workers s.worker m.healthy
          (λ k inside. claims k ∙ ap (λ (j : ℕ). is_born (s.worker j)) (omega arith))
        ∙ ap (λ (k : ℕ). some (born_from k 0 s.worker)) here.counted.slots
