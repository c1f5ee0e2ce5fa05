-- ===== src/Ring/System/Quiet.antt =====
-- The steps that advance a ring are few (core/ring.c).
use gnuweeb_bot.Common.{ℕ, suc, ◌+◌, ◌≤◌, arith}
use gnuweeb_bot.Ring.Submit.{Handlers}
use gnuweeb_bot.Ring.System.{Machine, RingStep}
use gnuweeb_bot.Ring.System.Inv.{Core}
use gnuweeb_bot.Ring.System.Runs.{RingStep-Core}
use gnuweeb_bot.Ring.System.Staffed.{Creates}
use gnuweeb_bot.Ring.System.Progress.{Advances}
use gnuweeb_bot.Ring.System.Finish.{work_left, advance_shrinks}

-- A run of steps that advance, in which the calls of thread_create succeed, with their number.
pub data AdvancingRun {P E : Type 0} (handlers : Handlers P E) (n : ℕ)
    : Machine P E → ℕ → Machine P E → Type 0 where
  done : {m : Machine P E} → AdvancingRun handlers n m 0 m
  advance :
      {k : ℕ} {m m' last : Machine P E}
      → (step : RingStep handlers n m m') → Advances step
      → Creates step
      → AdvancingRun handlers n m' k last
      → AdvancingRun handlers n m (suc k) last

module _ {P E : Type 0} {handlers : Handlers P E} {sq_bits cq_bits n : ℕ} where
  -- From a good state, in every order of the steps that advance, the calls of thread_create being
  -- successful: there are at most as many of them as `work_left` says, less what is left after them.
  pub few_advances :
      {k : ℕ} {m last : Machine P E}
      → Core sq_bits cq_bits n m
      → AdvancingRun handlers n m k last
      → k + work_left n last ≤ work_left n m
  few_advances c done = omega arith
  few_advances c (advance step advances ok r) =
      omega (arith, advance_shrinks c step advances, few_advances (RingStep-Core c step) r)
