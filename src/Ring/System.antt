-- ===== src/Ring/System.antt =====
-- The ring of core/ring.c together with its work queue, as one system of steps: the thread that
-- submits and reads completions, the workers, and what they log.
pub mod Books
pub mod Read
pub mod Inv
pub mod Submits
pub mod Runs
pub mod Kinds
pub mod Paced
pub mod Safety
pub mod Staffed
pub mod Progress
pub mod Finish
pub mod Quiet
pub mod Boot
mod Sample
mod Tests
use gnuweeb_bot.Common.{
  ℕ, ◌+◌, ◌<◌, ◌≡◌, Bool, true, false, Option, none, some, List, [], ◌∷◌, ◌++◌, ◌==◌, if◌then◌else◌,
  get_elem?, bit_and, length,
}
use gnuweeb_bot.Common.Int.{ℤ, pos, is_neg}
use gnuweeb_bot.Common.Word.{u32_add}
use gnuweeb_bot.Common.Family.{assign}
use gnuweeb_bot.Workqueue.{Workqueue, Work, Call, Signal}
use gnuweeb_bot.Workqueue.Submit.{queue_work_lap, queue_work_wake}
use gnuweeb_bot.Workqueue.Worker.{WorkerState, running, worker_step}
use gnuweeb_bot.Workqueue.Destroy.{destroy_begin}
use gnuweeb_bot.Workqueue.System.{System, after_lap, after_work}
use gnuweeb_bot.Ring.{
  GwRing, GwRingSqe, nop, tg_api_call, tg_module_handle, other, GwRingCqe, sqe_op,
}
use gnuweeb_bot.Ring.Prep.{gw_ring_get_sqe, fill_sqe}
use gnuweeb_bot.Ring.Complete.{
  post_cqe, cqe_of, wait_cqe_lap, wait_cqe_wake, gw_ring_load_head_cqe, gw_ring_cq_advance,
}
use gnuweeb_bot.Ring.Submit.{Handlers, call_result, gw_ring_wq_sqe_exec}
use gnuweeb_bot.Ring.Init.{gw_ring_stop}
use gnuweeb_bot.Ring.Pool.{sqe_work}

-- Where the caller of gw_ring_submit stands: outside, before a lap of its loop, or asleep in the
-- queue_work of a submission. The numbers are its `sq_head`, `sq_tail` and `ret`.
pub data Submitter (P : Type 0) : Type 0 where
  resting : Submitter P
  issuing : (sq_head sq_tail ret : ℕ) → Submitter P
  queueing : (sq_head sq_tail ret : ℕ) → GwRingSqe P → Submitter P

-- The loop gw_ring_for_each_cqe on its way: its `head`, and the completions it has read.
pub record Visit : Type 0 where
  pub head : ℕ
  pub read : List GwRingCqe

-- The ring, whose work queue comes with all its threads; the callback that each worker runs, until
-- its completion is posted; and the history: the submissions filled, those that could not be issued,
-- those without a completion because there was no room, the completions posted, and those that the
-- reader has given back.
pub record Machine (P E : Type 0) : Type 0 where
  pub ring : GwRing P (System (GwRingSqe P))
  pub submitter : Submitter P
  pub visit : Option Visit
  pub call : ℕ → Option (GwRingSqe P)
  pub world : E
  pub prepared : List (GwRingSqe P)
  pub refused : List (GwRingSqe P)
  pub lost : List (GwRingSqe P)
  pub posted : List GwRingCqe
  pub seen : List GwRingCqe

module _ {P : Type 0} where
  abbrev pub goes_to_wq : GwRingSqe P → Bool
  goes_to_wq (tg_api_call _ _) = true
  goes_to_wq (tg_module_handle _ _) = true
  goes_to_wq _ = false

  -- After a lap of queue_work in punt_to_io_wq: `ret < 0` is a failure.
  abbrev pub after_punt : Option ℤ → (sq_head sq_tail ret : ℕ) → GwRingSqe P → Submitter P
  after_punt none head tail ret sqe = queueing head tail ret sqe
  after_punt (some status) head tail ret sqe =
      issuing head tail (if is_neg status then ret else ret + 1)

  abbrev pub log_refused : Option ℤ → GwRingSqe P → List (GwRingSqe P) → List (GwRingSqe P)
  log_refused none sqe sqes = sqes
  log_refused (some status) sqe sqes = if is_neg status then sqes ++ sqe ∷ [] else sqes

  abbrev pub starts_call : WorkerState (GwRingSqe P) → Option (GwRingSqe P)
  starts_call (running work) = some work.arg
  starts_call _ = none

module _ {P E : Type 0} where
  -- The result of a completion and the world after it; an operation outside the enumeration has
  -- none.
  abbrev pub exec_result : Handlers P E → GwRingSqe P → E → Option ℤ × E
  exec_result handlers (nop d) world = (some (pos 0), world)
  exec_result handlers (tg_api_call d call) world =
      let (res, world') = call_result handlers call world in (some res, world')
  exec_result handlers (tg_module_handle d handle) world =
      let (res, world') = handlers.gw_module_handle handle.ctx handle.update world in
      (some res, world')
  exec_result handlers (other k d) world = (none, world)

  -- What post_cqe does, logged.
  abbrev pub posting : Machine P E → GwRingSqe P → Option ℤ → Machine P E
  posting m sqe none = record m { lost = m.lost ++ sqe ∷ [] }
  posting m sqe (some res) =
      let (ok, woken, ring) = post_cqe m.ring sqe res in
      record m {
        ring = ring;
        posted = if ok then m.posted ++ cqe_of sqe res ∷ [] else m.posted;
        lost = if ok then m.lost else m.lost ++ sqe ∷ [];
      }

  -- What a lap of queue_work for a submission leaves.
  abbrev pub punted :
      Machine P E
      → (sq_head sq_tail ret : ℕ) → GwRingSqe P
      → Option ℤ × Workqueue (GwRingSqe P) × List Signal
      → Machine P E
  punted m head tail ret sqe lap = record m {
    ring = record m.ring { wq = after_lap m.ring.wq 0 (sqe_work sqe) lap };
    submitter = after_punt lap.0 head tail ret sqe;
    refused = log_refused lap.0 sqe m.refused;
  }

-- `n` slots for workers. The caller of gw_ring_submit is caller 0 of queue_work. A wait may end
-- without a signal (`punt_again`, `work` from `asleep`, `wait_again`): what holds after every order of
-- these steps holds of the code, but that some step is possible does not mean that the code wakes
-- the thread that takes it.
pub data RingStep {P E : Type 0} (handlers : Handlers P E) (n : ℕ) (m : Machine P E)
    : Machine P E → Type 0 where
  -- gw_ring_get_sqe, and the submission filled.
  prepare :
      (idx : ℕ) (sqe : GwRingSqe P)
      → m.submitter ≡ resting
      → (gw_ring_get_sqe m.ring).0 ≡ some idx
      → RingStep handlers n m (record m {
        ring = fill_sqe idx sqe (gw_ring_get_sqe m.ring).1;
        prepared = m.prepared ++ sqe ∷ [];
      })
  -- gw_ring_submit, up to its loop.
  submit :
      m.submitter ≡ resting
      → m.ring.should_stop ≡ false
      → RingStep handlers n m (record m { submitter = issuing m.ring.sq_head m.ring.sq_tail 0 })
  -- Laps of its loop: a NOP, what cannot be issued (`malloc` fails, or no such operation), and what
  -- goes to the work queue.
  issue_nop :
      (head tail ret d : ℕ)
      → m.submitter ≡ issuing head tail ret
      → (head == tail) ≡ false
      → get_elem? m.ring.sqes (bit_and head m.ring.sq_mask) ≡ some (nop d)
      → RingStep handlers n m (record (posting m (nop d) (some (pos 0))) {
        submitter =
            issuing
              (u32_add head 1)
              tail
              (if (post_cqe m.ring (nop d) (pos 0)).0 then ret + 1 else ret);
      })
  refuse :
      (head tail ret : ℕ) (sqe : GwRingSqe P)
      → m.submitter ≡ issuing head tail ret
      → (head == tail) ≡ false
      → get_elem? m.ring.sqes (bit_and head m.ring.sq_mask) ≡ some sqe
      → (sqe_op sqe == 0) ≡ false
      → RingStep handlers n m (record m {
        submitter = issuing (u32_add head 1) tail ret;
        refused = m.refused ++ sqe ∷ [];
      })
  punt :
      (create : ℕ → ℤ) (head tail ret : ℕ) (sqe : GwRingSqe P)
      → m.submitter ≡ issuing head tail ret
      → (head == tail) ≡ false
      → get_elem? m.ring.sqes (bit_and head m.ring.sq_mask) ≡ some sqe
      → goes_to_wq sqe ≡ true
      → RingStep handlers n m (
          punted m
            (u32_add head 1)
            tail
            ret
            sqe
            (queue_work_lap create m.ring.wq.wq (sqe_work sqe)))
  punt_again :
      (create : ℕ → ℤ) (head tail ret : ℕ) (sqe : GwRingSqe P)
      → m.submitter ≡ queueing head tail ret sqe
      → RingStep handlers n m
          (punted m head tail ret sqe (queue_work_wake create m.ring.wq.wq (sqe_work sqe)))
  -- The end of gw_ring_submit.
  submitted :
      (head tail ret : ℕ)
      → m.submitter ≡ issuing head tail ret
      → (head == tail) ≡ true
      → RingStep handlers n m
          (record m { ring = record m.ring { sq_head = head }; submitter = resting })
  -- A critical section of worker `i`, which has returned from its callback.
  work :
      (i : ℕ) (state : WorkerState (GwRingSqe P)) (wq : Workqueue (GwRingSqe P))
      (signals : List Signal)
      → i < n
      → m.call i ≡ none
      → worker_step (m.ring.wq.worker i) m.ring.wq.wq ≡ some (state, wq, signals)
      → RingStep handlers n m (record m {
        ring = record m.ring { wq = after_work m.ring.wq i state wq };
        call = assign m.call i (starts_call state);
      })
  -- gw_ring_wq_sqe_exec on worker `i`.
  exec :
      (i : ℕ) (sqe : GwRingSqe P)
      → i < n
      → m.call i ≡ some sqe
      → RingStep handlers n m (record (posting m sqe (exec_result handlers sqe m.world).0) {
        call = assign m.call i none;
        world = (exec_result handlers sqe m.world).1;
      })
  -- gw_ring_wait_cqe.
  wait : RingStep handlers n m (record m { ring = (wait_cqe_lap m.ring).2 })
  wait_again : RingStep handlers n m (record m { ring = (wait_cqe_wake m.ring).2 })
  -- The loop over the completions: its start, a lap, and its end with gw_ring_cq_advance.
  visit_begin :
      m.visit ≡ none
      → RingStep handlers n m
          (record m { visit = some (record { head = m.ring.cq_head; read = [] }) })
  visit_next :
      (v : Visit) (idx : ℕ) (cqe : GwRingCqe)
      → m.visit ≡ some v
      → gw_ring_load_head_cqe m.ring v.head ≡ some idx
      → get_elem? m.ring.cqes idx ≡ some cqe
      → RingStep handlers n m (record m {
        visit = some (record { head = u32_add v.head 1; read = v.read ++ cqe ∷ [] });
      })
  visit_end :
      (v : Visit) (k : ℕ)
      → m.visit ≡ some v
      → k ≡ length v.read
      → RingStep handlers n m
          (record m { ring = gw_ring_cq_advance m.ring k; visit = none; seen = m.seen ++ v.read })
  -- The two parts of gw_ring_destroy: the flag, and destroy_workqueue.
  stop : m.submitter ≡ resting → RingStep handlers n m (record m { ring = (gw_ring_stop m.ring).1 })
  destroy :
      (calls : List (Call (GwRingSqe P))) (wq : Workqueue (GwRingSqe P)) (signals : List Signal)
      → m.submitter ≡ resting
      → m.ring.should_stop ≡ true
      → m.ring.wq.wq.should_stop ≡ false
      → destroy_begin m.ring.wq.wq ≡ some (calls, wq, signals)
      → RingStep handlers n m
          (record m { ring = record m.ring { wq = record m.ring.wq { wq = wq; cleared = calls } } })

-- The states reached from a start.
pub data RingReach {P E : Type 0} (handlers : Handlers P E) (n : ℕ) (start : Machine P E)
    : Machine P E → Type 0 where
  here : RingReach handlers n start start
  next :
      {m m' : Machine P E}
      → RingReach handlers n start m
      → RingStep handlers n m m'
      → RingReach handlers n start m'
