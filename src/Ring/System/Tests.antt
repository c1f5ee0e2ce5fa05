-- ===== src/Ring/System/Tests.antt =====
-- What holds of the ring and the worker of Ring/System/Sample (core/ring.c).
use gnuweeb_bot.Common.{◌+◌, ◌≤◌, ◌≡◌, refl, List, [], ◌∷◌, ◌++◌, arith, ◌==◌}
use gnuweeb_bot.Workqueue.{Workqueue}
use gnuweeb_bot.Workqueue.Submit.{queue_work_lap}
use gnuweeb_bot.Ring.{GwRingCqe}
use gnuweeb_bot.Ring.Prep.{gw_ring_get_sqe}
use gnuweeb_bot.Ring.Complete.{post_cqe, gw_ring_load_head_cqe}
use gnuweeb_bot.Ring.Nops.{nop_cqe}
use gnuweeb_bot.Ring.System.Books.{tally, of_sqe, of_cqe}
use gnuweeb_bot.Ring.System.Paced.{PacedRun-RingReach, paced_loses_none}
use gnuweeb_bot.Ring.System.Finish.{work_left}
use gnuweeb_bot.Ring.System.Quiet.{few_advances}
use gnuweeb_bot.Ring.System.Safety.{
  Placed, each_in_one_place, Loads, read_in_order, quiet_completes,
}
use gnuweeb_bot.Ring.System.Sample.{
  begun-Core, begun-Kinds, nop_issued, update_punted, runs, handled, runs-PacedRun,
  handled-PacedRun, visited, visited-RingReach, issued-Core, punting,
}

each_in_one_place_example : Placed 1 2 1 runs
each_in_one_place_example = each_in_one_place begun-Core (PacedRun-RingReach runs-PacedRun)

read_in_order_example :
    (rest : List GwRingCqe) × (visited.posted ≡ [] ++ ((nop_cqe 70 ∷ []) ++ rest))
    × Loads rest visited.ring.cqes (gw_ring_load_head_cqe visited.ring 1)
unfolding post_cqe queue_work_lap
read_in_order_example =
    read_in_order begun-Core (record { head = 1; read = nop_cqe 70 ∷ [] }) visited-RingReach refl

paced_loses_none_example : handled.lost ≡ []
paced_loses_none_example = paced_loses_none begun-Core begun-Kinds handled-PacedRun

-- Of the operation 2, one submission and one completion.
quiet_completes_example :
    tally (of_sqe (λ op user_data. op == 2)) handled.prepared
    ≡ tally (of_sqe (λ op user_data. op == 2)) handled.refused
      + tally (of_cqe (λ op user_data. op == 2)) handled.posted
unfolding post_cqe queue_work_lap gw_ring_get_sqe
quiet_completes_example =
    quiet_completes begun-Core begun-Kinds refl handled-PacedRun refl refl refl refl
      (λ i. ground arith) (λ op user_data. op == 2)

few_advances_example : 1 + work_left 1 update_punted ≤ work_left 1 nop_issued
few_advances_example = few_advances issued-Core punting
