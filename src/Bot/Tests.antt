-- ===== src/Bot/Tests.antt =====
-- The event loop of core/main.c on a ring of four submissions.
use gnuweeb_bot.Common.{
  ℕ, ◌+◌, ◌≡◌, refl, true, false, Option, none, some, List, [], ◌∷◌, arith, inl, ◌==◌,
  if◌then◌else◌,
}
use gnuweeb_bot.Common.Int.{ℤ, pos}
use gnuweeb_bot.Common.Circular.{Circular, fresh-Circular, push-Circular}
use gnuweeb_bot.Tgapi.{JsonC, TgUpdate, zero_update}
use gnuweeb_bot.Ring.{GwRing, GwRingSqe, nop, tg_module_handle}
use gnuweeb_bot.Ring.Submit.{IoWq, gw_ring_submit}
use gnuweeb_bot.Ring.Slots.{Submitted}
use gnuweeb_bot.Bot.{Address, ctx_at, update_at, TgBotCtx}
use gnuweeb_bot.Bot.Arm.{arm_update_sqe}
use gnuweeb_bot.Bot.Room.{poll}
use gnuweeb_bot.Bot.Full.{arm_update_sqe-full}
use gnuweeb_bot.Common.Errno.{enomem, eownerdead}
use gnuweeb_bot.Modules.{GwBotModule}
use gnuweeb_bot.Modules.Order.{run_all, inits}
use gnuweeb_bot.Bot.Run.{run_tg_bot, run_armed, run_tg_bot_lem}

abbrev json : JsonC ℕ
json = record {
  is_null = λ obj. false;
  address = λ obj. obj;
  put_result = λ refs. if refs == 1 then 1 else 0;
  json_object_object_get_ex = λ obj key. none;
  json_object_get_uint64 = λ obj. obj;
  json_object_get_int64 = λ obj. pos obj;
  json_object_get_string = λ obj. none;
  json_object_get_boolean = λ obj. false;
  json_object_array_length = λ obj. 0;
  json_object_array_get_idx = λ obj i. 0;
}

-- A work queue that counts the works it takes.
abbrev io : IoWq ℕ (GwRingSqe Address)
io = record {
  allocate = λ w. (true, w);
  queue_work = λ w arg. some (pos 0, w + 1);
  final = λ w w' arg ret e. inl (cc);
}

abbrev ring4 : GwRing Address ℕ
ring4 = record {
  should_stop = false;
  wait_cqe_cond_flag = false;
  sq_head = 0;
  sq_tail = 0;
  sq_mask = 3;
  cq_head = 0;
  cq_tail = 0;
  cq_mask = 0;
  cqes = record { op = 0; res = pos 0; flags = 0; user_data = 0 } ∷ [];
  sqes = nop 0 ∷ nop 0 ∷ nop 0 ∷ nop 0 ∷ [];
  wq = 0;
}

abbrev update_of : ℕ → TgUpdate ℕ
update_of id = record zero_update { update_id = id; json = some id }

-- The updates 7 and 9 have arrived.
abbrev ctx2 : TgBotCtx ℕ ℕ
ctx2 = record {
  ring = ring4;
  updates = some (record { at = 0; len = 2; updates = update_of 7 ∷ update_of 9 ∷ [] });
  max_update_id = pos 3;
  memory = record { found = λ _. true; calls = 1; live = 0 ∷ []; refs = λ _. 1 };
  freed = [];
}

abbrev handle : ℕ → GwRingSqe Address
handle i = tg_module_handle 0 (record { ctx = ctx_at; update = update_at 0 i })

abbrev ring4-Submitted :
    Circular {A = GwRingSqe Address} 2 (nop 0 ∷ nop 0 ∷ nop 0 ∷ nop 0 ∷ []) 3 0 0 []
ring4-Submitted = fresh-Circular 2 3 (nop 0) (omega arith) refl

-- One slot, taken by a NOP.
abbrev ring1 : GwRing Address ℕ
ring1 = record ring4 { sq_mask = 0; sq_tail = 1; sqes = nop 70 ∷ [] }

abbrev ring1-Submitted : Submitted 0 ring1 (nop 70 ∷ [])
ring1-Submitted =
    push-Circular (nop 70) (fresh-Circular {A = GwRingSqe Address} 0 0 (nop 0) (omega arith) refl)
      (omega arith)

abbrev unpack : Option (ℤ × List Address × GwRing Address ℕ) → GwRing Address ℕ
unpack none = ring1
unpack (some (ret, freed, ring)) = ring

abbrev drained : GwRing Address ℕ
unfolding gw_ring_submit
drained = unpack (gw_ring_submit io 9 ring1)

arm_update_sqe-full_example :
    (ring' : GwRing Address ℕ) × (arm_update_sqe io 9 (record ctx2 { ring = ring1 })
      ≡ some (record ctx2 { ring = ring'; updates = none }))
    × Submitted 0 ring' (poll (pos 4) ∷ [])
unfolding gw_ring_submit drained
arm_update_sqe-full_example =
    arm_update_sqe-full io 9 (record ctx2 { ring = ring1 }) drained 0 (nop 70 ∷ []) (pos 1) []
      ring1-Submitted refl (omega arith) refl refl

-- A module whose init hook fails.
abbrev failing : GwBotModule (TgUpdate ℕ) (TgBotCtx ℕ ℕ)
failing = record {
  listen_update_types = 1;
  init = some (λ ctx. (enomem, record ctx { max_update_id = pos 8 }));
  handle = none;
  shutdown = some (λ ctx. ctx);
}

-- On a ring that is stopped the first lap ends the loop.
abbrev stopped4 : TgBotCtx ℕ ℕ
stopped4 = record ctx2 { ring = record ring4 { should_stop = true } }

run_tg_bot_lem_example :
    run_tg_bot json io 9 (failing ∷ []) 1 ([] ∷ []) stopped4
    ≡ run_armed json io 9
        (failing ∷ [])
        1
        ([] ∷ [])
        (arm_update_sqe io 9 (run_all (inits (failing ∷ [])) stopped4))
run_tg_bot_lem_example = run_tg_bot_lem json io 9 (failing ∷ []) 1 ([] ∷ []) stopped4

abbrev status_of : Option (ℤ × TgBotCtx ℕ ℕ) → ℤ
status_of none = pos 0
status_of (some (ret, ctx)) = ret

stopped_run : status_of (run_tg_bot json io 9 (failing ∷ []) 1 ([] ∷ []) stopped4) ≡ eownerdead
unfolding run_tg_bot
stopped_run = refl
