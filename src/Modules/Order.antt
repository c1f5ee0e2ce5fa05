-- ===== src/Modules/Order.antt =====
-- Which hooks of the modules run, and in which order (modules/module.c).
use gnuweeb_bot.Common.{
  ℕ, ◌≡◌, refl, Bool, true, false, Option, none, some, List, [], ◌∷◌, if◌then◌else◌, arith,
  Bool-cases, inl, inr,
}
use gnuweeb_bot.Common.Int.{ℤ, pos, is_zero}
use gnuweeb_bot.Modules.{
  Hook, GwBotModule, gw_init_modules, gw_shutdown_modules, go_on, init_lap, is_deaf,
}

-- The hooks run in order, each in the world that the one before it left, up to the first whose
-- status is not zero, which is the result; without such a hook the result is zero.
pub data Stopped {E : Type 0} : List (Hook E) → E → ℤ × E → Type 0 where
  ended : (world : E) → Stopped [] world (pos 0, world)
  failed :
      (hook : Hook E) (hooks : List (Hook E)) (world : E)
      → is_zero (hook world).0 ≡ false
      → Stopped (hook ∷ hooks) world (hook world)
  passed :
      (hook : Hook E) (hooks : List (Hook E)) (world : E) (out : ℤ × E)
      → is_zero (hook world).0 ≡ true
      → Stopped hooks (hook world).1 out
      → Stopped (hook ∷ hooks) world out

-- All hooks run, in order, whatever their status.
abbrev pub run_all : {E : Type 0} → List (Hook E) → E → E
run_all [] world = world
run_all (hook ∷ hooks) world = run_all hooks (hook world).1

go_on-Stopped :
    {E : Type 0} (hook : Hook E) (hooks : List (Hook E)) (rest : Hook E) (world : E)
    → ((w : E) → Stopped hooks w (rest w))
    → Stopped (hook ∷ hooks) world (go_on false (hook world) rest)
go_on-Stopped hook hooks rest world h = elim (Bool-cases (is_zero (hook world).0)) [
  | inl fine ↦ rw fine (passed hook hooks world _ fine (h (hook world).1))
  | inr bad ↦ rw bad (failed hook hooks world bad)
]

module _ {E : Type 0} where
  abbrev pub with_init : Option (Hook E) → List (Hook E) → List (Hook E)
  with_init none hooks = hooks
  with_init (some init) hooks = init ∷ hooks

  init_lap-Stopped :
      (hook : Option (Hook E)) (hooks : List (Hook E)) (rest : Hook E) (world : E)
      → ((w : E) → Stopped hooks w (rest w))
      → Stopped (with_init hook hooks) world (init_lap hook false rest world)
  init_lap-Stopped none hooks rest world h = h world
  init_lap-Stopped (some init) hooks rest world h = go_on-Stopped init hooks rest world h

  lenient_lap :
      (hook : Option (Hook E)) (hooks : List (Hook E)) (rest : Hook E) (world : E)
      → ((w : E) → rest w ≡ (pos 0, run_all hooks w))
      → init_lap hook true rest world ≡ (pos 0, run_all (with_init hook hooks) world)
  lenient_lap none hooks rest world h = h world
  lenient_lap (some init) hooks rest world h = elim (Bool-cases (is_zero (init world).0)) [
    | inl fine ↦ rw fine (h (init world).1)
    | inr bad ↦ rw bad (h (init world).1)
  ]

module _ {U E : Type 0} where
  abbrev pub listener : Option (U → Hook E) → Bool → U → List (Hook E) → List (Hook E)
  listener none deaf up hooks = hooks
  listener (some handle) deaf up hooks = if deaf then hooks else handle up ∷ hooks

  -- The handlers of the modules that listen for a type of updates, on this update.
  abbrev pub listeners : List (GwBotModule U E) → ℕ → U → List (Hook E)
  listeners [] type up = []
  listeners (module' ∷ modules) type up =
      listener module'.handle (is_deaf module' type) up (listeners modules type up)

  -- The init hooks that there are.
  abbrev pub inits : List (GwBotModule U E) → List (Hook E)
  inits [] = []
  inits (module' ∷ modules) = with_init module'.init (inits modules)

  abbrev pub all_have_shutdown : List (GwBotModule U E) → Bool
  all_have_shutdown [] = true
  all_have_shutdown (module' ∷ modules) = elim (module'.shutdown) [
    | none ↦ false
    | some _ ↦ all_have_shutdown modules
  ]

  strict :
      (modules : List (GwBotModule U E)) (world : E)
      → Stopped (inits modules) world (gw_init_modules modules false world)
  unfolding gw_init_modules
  strict [] world = ended world
  strict (module' ∷ modules) world =
      init_lap-Stopped module'.init (inits modules) (gw_init_modules modules false) world
        (λ w. strict modules w)

  lenient :
      (modules : List (GwBotModule U E)) (world : E)
      → gw_init_modules modules true world ≡ (pos 0, run_all (inits modules) world)
  unfolding gw_init_modules
  lenient [] world = refl
  lenient (module' ∷ modules) world =
      lenient_lap module'.init (inits modules) (gw_init_modules modules true) world
        (λ w. lenient modules w)

  -- gw_init_modules runs the init hooks that there are in the order of the table. Where failures are
  -- not allowed it stops at the first whose status is not zero; where they are, it runs them all and
  -- returns zero.
  pub gw_init_modules_lem :
      (modules : List (GwBotModule U E)) (world : E)
      → Stopped (inits modules) world (gw_init_modules modules false world)
        × (gw_init_modules modules true world ≡ (pos 0, run_all (inits modules) world))
  gw_init_modules_lem modules world = (strict modules world, lenient modules world)

  -- gw_shutdown_modules runs no hook: it leaves everything as it was where every module has the hook,
  -- and calls a null pointer where one has none.
  pub gw_shutdown_modules_lem :
      (modules : List (GwBotModule U E)) (world : E)
      → gw_shutdown_modules modules world ≡ (if all_have_shutdown modules then some world else none)
  unfolding gw_shutdown_modules
  gw_shutdown_modules_lem [] world = refl
  gw_shutdown_modules_lem (module' ∷ modules) world =
      ground (arith, gw_shutdown_modules_lem modules world)
