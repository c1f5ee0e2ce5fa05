-- ===== src/Workqueue/System/Wake.antt =====
-- Which steps of the work queue wake the callers that sleep in queue_work (core/workqueue.c).
use gnuweeb_bot.Common.{
  ℕ, ◌^◌, Bool-cases, inl, inr, ◌<◌, ◌≡◌, ◌∙◌, refl, sym, Option, none, Bool, true, false, ◌&&◌,
  ◌||◌, some, List, [], ◌∷◌, ◌++◌, ltb, ◌==◌, arith,
}
use gnuweeb_bot.Common.Int.{ℤ}
use gnuweeb_bot.Common.Word.{u32_add, u32_sub}
use gnuweeb_bot.Common.Family.{total, total-assign, total-le}
use gnuweeb_bot.Workqueue.{
  Workqueue, Work, Call, Signal, signal, broadcast, worker_cond, wait_all_cond, queue_work_cond,
}
use gnuweeb_bot.Workqueue.Spawn.{arm_worker}
use gnuweeb_bot.Workqueue.Submit.{queue_work_lap, queue_work_wake, try_queue_work_locked}
use gnuweeb_bot.Workqueue.Destroy.{destroy_begin, wake_up_all_workers}
use gnuweeb_bot.Workqueue.Worker.{
  WorkerState, unborn, starting, asleep, finished, running, worker_step, worker_turn, finish_work,
  wake_up_all_queue_work_callers,
}
use gnuweeb_bot.Workqueue.Moves.{is_running}
use gnuweeb_bot.Workqueue.System.{
  System, QueuerState, Step, submit, retry, wait_all, wait_again, work, destroy, Reach,
}
use gnuweeb_bot.Workqueue.System.Count.{is_queued, Counted, running-le}
use gnuweeb_bot.Workqueue.System.Inv.{Inv, Reach-Inv}

-- Whether some of the signals goes to `queue_work_cond`.
abbrev pub wakes_callers : List Signal → Bool
wakes_callers [] = false
wakes_callers (signal queue_work_cond ∷ signals) = true
wakes_callers (broadcast queue_work_cond ∷ signals) = true
wakes_callers (_ ∷ signals) = wakes_callers signals

wakes_callers-append :
    (left right : List Signal)
    → wakes_callers (left ++ right) ≡ (wakes_callers left || wakes_callers right)
wakes_callers-append [] right = refl
wakes_callers-append (signal worker_cond ∷ left) right = wakes_callers-append left right
wakes_callers-append (signal wait_all_cond ∷ left) right = wakes_callers-append left right
wakes_callers-append (signal queue_work_cond ∷ left) right = refl
wakes_callers-append (broadcast worker_cond ∷ left) right = wakes_callers-append left right
wakes_callers-append (broadcast wait_all_cond ∷ left) right = wakes_callers-append left right
wakes_callers-append (broadcast queue_work_cond ∷ left) right = refl

or_false : (b : Bool) → (b || false) ≡ b
or_false true = refl
or_false false = refl

module _ {A : Type 0} where
  -- The signals of a step.
  abbrev pub signals_of : {n q : ℕ} {s t : System A} → Step n q s t → List Signal
  signals_of {s = s} (submit create i job h e) = (queue_work_lap create s.wq job).2
  signals_of {s = s} (retry create i job h e) = (queue_work_wake create s.wq job).2
  signals_of wait_all = []
  signals_of wait_again = []
  signals_of (work i state wq signals h e) = signals
  signals_of (destroy calls wq signals going e) = signals

  -- Whether a worker ends a work in the step.
  abbrev pub ends_work : {n q : ℕ} {s t : System A} → Step n q s t → Bool
  ends_work {s = s} (work i state wq signals h e) = is_running (s.worker i) == 1
  ends_work _ = false

  lap_wakes_nobody :
      (create : ℕ → ℤ) (wq : Workqueue A) (job : Work A)
      → wakes_callers (queue_work_lap create wq job).2 ≡ false
  unfolding queue_work_lap try_queue_work_locked arm_worker
  lap_wakes_nobody create wq job = ground arith

  turn_wakes_nobody :
      (wq wq' : Workqueue A) (state : WorkerState A) (signals : List Signal)
      → worker_turn wq ≡ some (state, wq', signals)
      → wakes_callers signals ≡ false
  unfolding worker_turn
  turn_wakes_nobody wq wq' state signals e = ground arith

  -- A turn that follows signals of its own.
  abbrev prepend :
      List Signal
      → Option (WorkerState A × Workqueue A × List Signal)
      → Option (WorkerState A × Workqueue A × List Signal)
  prepend own turn = elim turn [
    | none ↦ none
    | some (state, wq', more) ↦ some (state, wq', own ++ more)
  ]

  turn_after :
      (own : List Signal) (turn : Option (WorkerState A × Workqueue A × List Signal))
      (state : WorkerState A) (wq' : Workqueue A) (signals : List Signal)
      → ((state : WorkerState A) (wq' : Workqueue A) (more : List Signal)
          → turn ≡ some (state, wq', more)
          → wakes_callers more ≡ false)
      → prepend own turn ≡ some (state, wq', signals)
      → wakes_callers signals ≡ wakes_callers own
  turn_after own none state wq' signals quiet e = absurd (cc)
  turn_after own (some (last, wq, more)) state wq' signals quiet e =
      let all : own ++ more ≡ signals = cc in
      rw (sym all, wakes_callers-append own more, quiet last wq more refl)
        (or_false (wakes_callers own))

  work_wakes :
      (before state : WorkerState A) (wq wq' : Workqueue A) (signals : List Signal)
      → worker_step before wq ≡ some (state, wq', signals)
      → wakes_callers signals ≡ ((is_running before == 1) && wakes_callers (finish_work wq).1)
  unfolding worker_step
  work_wakes unborn state wq wq' signals e = absurd (cc)
  work_wakes finished state wq wq' signals e = absurd (cc)
  work_wakes starting state wq wq' signals e =
      let wq1 = record wq { nr_online_workers = u32_add wq.nr_online_workers 1 } in
      turn_wakes_nobody wq1 wq' state signals e
  work_wakes asleep state wq wq' signals e =
      let wq1 = record wq { nr_sleeping_workers = u32_sub wq.nr_sleeping_workers 1 } in
      turn_wakes_nobody wq1 wq' state signals e
  work_wakes (running job) state wq wq' signals e =
      let ended = finish_work wq in
      turn_after ended.1 (worker_turn ended.0) state wq' signals
        (λ last wq1 more turns. turn_wakes_nobody ended.0 wq1 last more turns) e

  finish_wakes :
      (wq : Workqueue A)
      → wq.nr_running_workers < 2 ^ 32
      → 0 < wq.nr_running_workers
      → wakes_callers (finish_work wq).1
        ≡ (ltb 1 wq.nr_running_workers && ltb 0 wq.nr_sleeping_queuers)
  unfolding finish_work wake_up_all_queue_work_callers
  finish_wakes wq fits some_run = ground arith

  destroy_wakes_nobody :
      (wq wq' : Workqueue A) (calls : List (Call A)) (signals : List Signal)
      → destroy_begin wq ≡ some (calls, wq', signals)
      → wakes_callers signals ≡ false
  unfolding destroy_begin wake_up_all_workers
  destroy_wakes_nobody wq wq' calls signals e = ground arith

  -- A worker that runs a work is among those that are counted.
  runs_some :
      {n q : ℕ} {wq : Workqueue A} {worker : ℕ → WorkerState A} {queuer : ℕ → QueuerState A} (i : ℕ)
      → i < n
      → (is_running (worker i) == 1) ≡ true
      → Counted n q wq worker queuer
      → (0 < wq.nr_running_workers) × (wq.nr_running_workers < 2 ^ 32)
  runs_some {n} {worker = worker} i h ends c =
      let one : is_running (worker i) ≡ 1 = ground arith in
      let counts = total-assign is_running n worker i unborn h in
      (
        omega (arith, counts, one, c.runs),
        omega (arith, c.runs, c.few, total-le is_running n worker running-le),
      )

  -- From a good start, in every order of steps: a step signals the callers that sleep in queue_work
  -- exactly where a worker ends a work in it while another worker runs one and some caller sleeps. So
  -- neither the worker that ends the last running work, nor one that takes its first work from a full
  -- list, nor destroy_workqueue wakes any.
  pub wakes_while_others_run :
      {n q : ℕ} {start s t : System A}
      → Inv n q start
      → Reach n q start s
      → (step : Step n q s t)
      → wakes_callers (signals_of step) ≡ (
          ends_work step
          && (ltb 1 (total is_running n s.worker) && ltb 0 (total is_queued q s.queuer)))
  unfolding queue_work_wake
  wakes_while_others_run {s = s} inv r (submit create i job h e) = lap_wakes_nobody create s.wq job
  wakes_while_others_run {s = s} inv r (retry create i job h e) =
      lap_wakes_nobody create
        (record s.wq { nr_sleeping_queuers = u32_sub s.wq.nr_sleeping_queuers 1 }) job
  wakes_while_others_run inv r wait_all = refl
  wakes_while_others_run inv r wait_again = refl
  wakes_while_others_run {n} {q} {start} {s} inv r (work i state wq signals h e) =
      let c = (Reach-Inv inv r).counted in
      let wakes = work_wakes (s.worker i) state s.wq wq signals e in
      elim (Bool-cases (is_running (s.worker i) == 1)) [
        | inl ends ↦
            let (some_run, fits) = runs_some i h ends c in
            wakes ∙ rw (ends, finish_wakes s.wq fits some_run, c.runs, c.queuers) refl
        | inr other ↦ wakes ∙ rw other refl
      ]
  wakes_while_others_run {s = s} inv r (destroy calls wq signals going e) =
      destroy_wakes_nobody s.wq wq calls signals e
