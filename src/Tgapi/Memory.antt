-- ===== src/Tgapi/Memory.antt =====
-- The memory that lib/tgapi.c allocates, and the references that it holds to objects of json-c.
use gnuweeb_bot.Common.{ℕ, ◌+◌, ◌-◌, Bool, Option, none, some, List, [], ◌∷◌, ◌==◌, if◌then◌else◌}
use gnuweeb_bot.Common.Family.{assign}

-- The blocks in use, the last first. The k-th allocation succeeds where `found k` is true, and has
-- the address k. `refs` counts the references of each object of json-c that the program holds.
pub record Memory : Type 0 where
  pub found : ℕ → Bool
  pub calls : ℕ
  pub live : List ℕ
  pub refs : ℕ → ℕ

-- `malloc` and `calloc`
unfoldable pub malloc : Memory → Option ℕ × Memory
malloc mem =
    if mem.found mem.calls
    then (some mem.calls, record mem { calls = mem.calls + 1; live = mem.calls ∷ mem.live })
    else (none, record mem { calls = mem.calls + 1 })

abbrev pub remove : ℕ → List ℕ → List ℕ
remove a [] = []
remove a (b ∷ bs) = if a == b then bs else b ∷ remove a bs

unfoldable pub free : ℕ → Memory → Memory
free a mem = record mem { live = remove a mem.live }

-- `free` of a pointer that may be NULL.
unfoldable pub free_opt : Option ℕ → Memory → Memory
unfolding free
free_opt none mem = mem
free_opt (some a) mem = free a mem

-- json_object_get: the program holds one reference more.
unfoldable pub json_object_get : ℕ → Memory → Memory
json_object_get a mem = record mem { refs = assign mem.refs a (mem.refs a + 1) }

-- json_object_put: it holds one less.
unfoldable pub json_object_put : ℕ → Memory → Memory
json_object_put a mem = record mem { refs = assign mem.refs a (mem.refs a - 1) }
