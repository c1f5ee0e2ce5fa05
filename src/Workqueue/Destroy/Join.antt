-- ===== src/Workqueue/Destroy/Join.antt =====
-- The joins of destroy_workqueue (core/workqueue.c) after a creation that failed.
use gnuweeb_bot.Common.{
  ℕ, zero, suc, ◌+◌, ◌≡◌, ap, ◌∙◌, false, none, some, List, [], ◌∷◌, arith, Bool-cases, inl, inr,
  modify,
}
use gnuweeb_bot.Common.Int.{ℤ, is_zero}
use gnuweeb_bot.Workqueue.{Workqueue, WorkerThread}
use gnuweeb_bot.Workqueue.Spawn.{
  start_slot, get_free_worker_slot, get_free_worker_slot_from, arm_spawn_worker,
}
use gnuweeb_bot.Workqueue.Destroy.{join_all_workers, join_all_workers_from}

failed_join :
    (returned : ℕ → ℕ) (k i : ℕ) (ret : ℤ) (workers : List WorkerThread)
    → is_zero ret ≡ false
    → get_free_worker_slot_from k workers ≡ some (k + i)
    → join_all_workers_from returned k (modify workers i (start_slot ret)) ≡ none
unfolding join_all_workers_from get_free_worker_slot_from
failed_join returned k i ret [] failed h = cc
failed_join returned k zero ret (worker ∷ workers) failed h = ground arith
failed_join returned k (suc i) ret (worker ∷ workers) failed h = elim (Bool-cases worker.wq) [
  | inl taken ↦
      let found : get_free_worker_slot_from (k + 1) workers ≡ some (k + 1 + i) = ground arith in
      ground (arith, failed_join returned (k + 1) i ret workers failed found)
  | inr free ↦ absurd (ground arith)
]

-- After a `thread_create` that failed in arm_spawn_worker the slot stays claimed with no thread in
-- it, and the joins of destroy_workqueue join a thread that was never created.
pub failed_spawn_breaks_join :
    {A : Type 0} (returned : ℕ → ℕ) (create : ℕ → ℤ) (wq : Workqueue A) (i : ℕ)
    → get_free_worker_slot wq.workers ≡ some i
    → is_zero (create i) ≡ false
    → join_all_workers returned (arm_spawn_worker create wq).1.workers ≡ none
unfolding join_all_workers arm_spawn_worker get_free_worker_slot
failed_spawn_breaks_join returned create wq i free failed =
    let same : i ≡ 0 + i = omega arith in
    rw (free, arm_spawn_worker)
      (failed_join returned 0 i (create i) wq.workers failed (free ∙ ap some same))
