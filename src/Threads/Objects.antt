-- ===== src/Threads/Objects.antt =====
-- The objects of core/thread.cc where CONFIG_CPP_THREAD is set: how they are made and given back.
use gnuweeb_bot.Common.{
  ℕ, ◌≡◌, refl, Bool, true, Option, none, some, List, if◌then◌else◌, arith, Bool-cases, inl, inr,
}
use gnuweeb_bot.Common.Int.{ℤ, pos}
use gnuweeb_bot.Common.Errno.{enomem}
use gnuweeb_bot.Tgapi.Memory.{Memory, malloc, free}
use gnuweeb_bot.Threads.{Outcome, returns, blocks, throws, and_then}

-- `malloc`, then an object in it: the status, and the address where it is zero.
unfoldable pub new_object : Option ℕ × Memory → ℤ × Option ℕ × Memory
new_object (none, mem) = (enomem, none, mem)
new_object (some at, mem) = (pos 0, some at, mem)

unfoldable pub mutex_init : Memory → ℤ × Option ℕ × Memory
unfolding new_object malloc
mutex_init mem = new_object (malloc mem)

unfoldable pub cond_init : Memory → ℤ × Option ℕ × Memory
unfolding new_object malloc
cond_init mem = new_object (malloc mem)

-- The pointer becomes NULL.
unfoldable pub mutex_destroy : ℕ → Memory → Option ℕ × Memory
unfolding free
mutex_destroy at mem = (none, free at mem)

unfoldable pub cond_destroy : ℕ → Memory → Option ℕ × Memory
unfolding free
cond_destroy at mem = (none, free at mem)

-- The constructor of std::thread throws where `starts` is false.
unfoldable pub start_thread : (starts : Bool) → Option ℕ × Memory → Outcome (ℤ × Option ℕ × Memory)
start_thread starts (none, mem) = returns (enomem, none, mem)
start_thread starts (some at, mem) = if starts then returns (pos 0, some at, mem) else throws

unfoldable pub thread_create : (starts : Bool) → Memory → Outcome (ℤ × Option ℕ × Memory)
unfolding start_thread malloc
thread_create starts mem = start_thread starts (malloc mem)

-- `ended` is what the function of the thread has returned; `none` is a thread that runs for ever.
unfoldable pub thread_join :
    {R : Type 0} → ℕ → (ended : Option R) → Memory → Outcome (ℤ × R × Memory)
unfolding free
thread_join at none mem = blocks
thread_join at (some ret) mem = returns (pos 0, ret, free at mem)

unfoldable pub thread_detach : ℕ → Memory → Memory
unfolding free
thread_detach at mem = free at mem

-- thread_create, and thread_join where it made a thread: the blocks that are left.
abbrev pub joined_blocks : {R : Type 0} → R → ℤ × Option ℕ × Memory → Outcome (List ℕ)
unfolding thread_join
joined_blocks ret (status, none, mem) = returns mem.live
joined_blocks ret (status, some at, mem) =
    and_then (thread_join at (some ret) mem) (λ out. returns out.2.live)

-- A thread whose function ends is joined without a rest: with memory or without, the blocks in use are
-- those from before thread_create.
pub thread_join_lem :
    {R : Type 0} (ret : R) (mem : Memory)
    → and_then (thread_create true mem) (joined_blocks ret) ≡ returns mem.live
unfolding thread_create start_thread malloc thread_join free joined_blocks
thread_join_lem ret mem = elim (Bool-cases (mem.found mem.calls)) [
  | inl found ↦ rw found (ground arith)
  | inr full ↦ rw full refl
]
