-- ===== src/Workqueue/System/Count.antt =====
-- The counters of the work queue count the threads (core/workqueue.c).
use gnuweeb_bot.Common.{
  ℕ, ◌+◌, ◌≤◌, ◌<◌, ◌≡◌, ◌≢◌, refl, sym, ◌∙◌, ap, false, Option, List, arith, length,
}
use gnuweeb_bot.Common.Int.{ℤ}
use gnuweeb_bot.Common.Word.{u32_mod, u32_sub}
use gnuweeb_bot.Common.Family.{assign, total, total-ext, total-assign, total-le}
use gnuweeb_bot.Workqueue.{Workqueue, WorkerThread, Work, Signal}
use gnuweeb_bot.Workqueue.Worker.{WorkerState, unborn, starting}
use gnuweeb_bot.Workqueue.Moves.{is_asleep, is_running, is_online, Move, HasRoom}
use gnuweeb_bot.Workqueue.Grown.{wq_at, Lap, stops, sleeps, accepts}
use gnuweeb_bot.Workqueue.System.{QueuerState, idle, queued, spawn, settle}

module _ {A : Type 0} where
  abbrev pub is_queued : QueuerState A → ℕ
  is_queued idle = 0
  is_queued (queued _) = 1

  pub record Counted (n q : ℕ) (wq : Workqueue A) (worker : ℕ → WorkerState A)
      (queuer : ℕ → QueuerState A) : Type 0 where
    pub few : (n + 1 < u32_mod) × (q + 1 < u32_mod)
    pub slots : length wq.workers ≡ n
    pub sleeping : wq.nr_sleeping_workers ≡ total is_asleep n worker
    pub online : wq.nr_online_workers ≡ total is_online n worker
    pub runs : wq.nr_running_workers ≡ total is_running n worker
    pub queuers : wq.nr_sleeping_queuers ≡ total is_queued q queuer
    pub free_slots : (i : ℕ) → wq_at wq.workers i ≡ false → worker i ≡ unborn

  asleep-le : (s : WorkerState A) → is_asleep s ≤ 1
  asleep-le unborn = omega arith
  asleep-le _ = omega arith

  online-le : (s : WorkerState A) → is_online s ≤ 1
  online-le unborn = omega arith
  online-le _ = omega arith

  pub running-le : (s : WorkerState A) → is_running s ≤ 1
  running-le unborn = omega arith
  running-le _ = omega arith

  queued-le : (s : QueuerState A) → is_queued s ≤ 1
  queued-le idle = omega arith
  queued-le (queued _) = omega arith

  module _ {n q : ℕ} {wq : Workqueue A} {worker : ℕ → WorkerState A}
      {queuer : ℕ → QueuerState A} where
    -- A new thread is in none of the counts.
    spawn-total :
        (weight : WorkerState A → ℕ) (after : List WorkerThread)
        → weight unborn ≡ weight starting
        → Counted n q wq worker queuer
        → total weight n (spawn wq.workers after worker) ≡ total weight n worker
    spawn-total weight after e c = total-ext weight n _ _ λ i. ground (arith, c.free_slots i)

    -- A caller outside a call is not counted.
    pub enter_queue :
        (i : ℕ)
        → i < q
        → queuer i ≡ idle
        → Counted n q wq worker queuer
        → Counted n q wq worker (assign queuer i idle)
    enter_queue i h e c = record {
      few = c.few;
      slots = c.slots;
      sleeping = c.sleeping;
      online = c.online;
      runs = c.runs;
      queuers = omega (arith, c.queuers, total-assign is_queued q queuer i idle h, ap is_queued e);
      free_slots = c.free_slots;
    }

    -- A change of other fields of the queue counts nothing.
    pub same_counts :
        (wq' : Workqueue A)
        → wq'.workers ≡ wq.workers
        → wq'.nr_sleeping_workers ≡ wq.nr_sleeping_workers
        → wq'.nr_online_workers ≡ wq.nr_online_workers
        → wq'.nr_running_workers ≡ wq.nr_running_workers
        → wq'.nr_sleeping_queuers ≡ wq.nr_sleeping_queuers
        → Counted n q wq worker queuer
        → Counted n q wq' worker queuer
    same_counts wq' slots sleeping online runs queuers c = record {
      few = c.few;
      slots = ap length slots ∙ c.slots;
      sleeping = sleeping ∙ c.sleeping;
      online = online ∙ c.online;
      runs = runs ∙ c.runs;
      queuers = queuers ∙ c.queuers;
      free_slots = λ i free. c.free_slots i (rw slots at free);
    }

    -- A caller that leaves its wait is counted no more.
    pub leave_queue :
        (i : ℕ) (state : QueuerState A)
        → i < q
        → queuer i ≡ state
        → Counted n q wq worker queuer
        → Counted n q
            (record wq { nr_sleeping_queuers = u32_sub wq.nr_sleeping_queuers (is_queued state) })
            worker
            (assign queuer i idle)
    leave_queue i state h e c = record {
      few = c.few;
      slots = c.slots;
      sleeping = c.sleeping;
      online = c.online;
      runs = c.runs;
      queuers = omega (
        arith,
        total-assign is_queued q queuer i idle h,
        ap is_queued e,
        c.queuers,
        queued-le state,
        total-le is_queued q queuer queued-le,
      );
      free_slots = c.free_slots;
    }

    pub room : (i : ℕ) → i < n → Counted n q wq worker queuer → HasRoom (worker i) wq
    room i h c = record {
      sleeping = omega (
        arith,
        c.sleeping,
        total-assign is_asleep n worker i unborn h,
        total-le is_asleep n worker asleep-le,
      );
      online = omega (
        arith,
        c.online,
        total-assign is_online n worker i unborn h,
        total-le is_online n worker online-le,
      );
      runs = omega (
        arith,
        c.runs,
        total-assign is_running n worker i unborn h,
        total-le is_running n worker running-le,
      );
    }

    -- A critical section of a worker is counted right.
    pub Move-Counted :
        (i : ℕ) (state : WorkerState A) (wq' : Workqueue A)
        → i < n
        → worker i ≢ unborn
        → Move (worker i) wq state wq'
        → Counted n q wq worker queuer
        → Counted n q wq' (assign worker i state) queuer
    Move-Counted i state wq' h born m c = record {
      few = c.few;
      slots = ap (λ (w : Workqueue A). length w.workers) m.same ∙ c.slots;
      sleeping = omega (arith, m.sleeping, c.sleeping, total-assign is_asleep n worker i state h);
      online = omega (arith, m.online, c.online, total-assign is_online n worker i state h);
      runs = omega (arith, m.runs, c.runs, total-assign is_running n worker i state h);
      queuers = ap (λ (w : Workqueue A). w.nr_sleeping_queuers) m.same ∙ c.queuers;
      free_slots =
          λ j free. ground (arith, c.free_slots j, ap (λ (w : Workqueue A). w.workers) m.same);
    }

  -- A lap of `queue_work` counts its caller if it falls asleep.
  pub Lap-Counted :
      {n q : ℕ} {wq : Workqueue A} {worker : ℕ → WorkerState A} (queuer : ℕ → QueuerState A) (i : ℕ)
      (work : Work A) (out : Option ℤ × Workqueue A × List Signal)
      → i < q
      → Lap wq work out
      → Counted n q wq worker (assign queuer i idle)
      → Counted n q out.1
          (spawn wq.workers out.1.workers worker)
          (assign queuer i (settle out.0 work))
  Lap-Counted {n} {q} {wq} {worker} queuer i work out h (stops _ e) c = rw e (record {
    few = c.few;
    slots = c.slots;
    sleeping = c.sleeping ∙ sym (spawn-total is_asleep wq.workers refl c);
    online = c.online ∙ sym (spawn-total is_online wq.workers refl c);
    runs = c.runs ∙ sym (spawn-total is_running wq.workers refl c);
    queuers = c.queuers;
    free_slots = λ j free. ground (arith, c.free_slots j);
  })
  Lap-Counted {n} {q} {wq} {worker} queuer i work out h (sleeps _ _ e) c = rw e (record {
    few = c.few;
    slots = c.slots;
    sleeping = c.sleeping ∙ sym (spawn-total is_asleep wq.workers refl c);
    online = c.online ∙ sym (spawn-total is_online wq.workers refl c);
    runs = c.runs ∙ sym (spawn-total is_running wq.workers refl c);
    queuers = omega (
      arith,
      c.queuers,
      total-assign is_queued q queuer i idle h,
      total-assign is_queued q queuer i (queued work) h,
      total-le is_queued q (assign queuer i idle) queued-le,
    );
    free_slots = λ j free. ground (arith, c.free_slots j);
  })
  Lap-Counted {n} {q} {wq} {worker} queuer i work out h (accepts workers signals _ _ g e) c =
      rw e (record {
        few = c.few;
        slots = g.same_length ∙ c.slots;
        sleeping = c.sleeping ∙ sym (spawn-total is_asleep workers refl c);
        online = c.online ∙ sym (spawn-total is_online workers refl c);
        runs = c.runs ∙ sym (spawn-total is_running workers refl c);
        queuers = c.queuers;
        free_slots = λ j free. ground (arith, g.kept j, c.free_slots j);
      })
