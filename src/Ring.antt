-- ===== src/Ring.antt =====
-- core/ring.c and include/gw/ring.h: a ring of submissions, a ring of completions, and a work queue
-- that runs what cannot be done at once. This file holds the data; the children hold the functions
-- and what is proved of them.
pub mod Prep
pub mod Complete
pub mod Submit
pub mod Slots
pub mod Consume
pub mod Issue
pub mod Nops
pub mod Init
pub mod Start
pub mod Pool
pub mod Stop
pub mod System
mod Tests
use gnuweeb_bot.Common.{ℕ, ◌+◌, Bool, List}
use gnuweeb_bot.Common.Int.{ℤ}

-- `struct tg_api_call`; `P` is the type of addresses.
pub record TgApiCall (P : Type 0) : Type 0 where
  pub op : ℕ
  pub ctx : P
  pub updates_p : P
  pub offset : ℤ

-- `TG_API_GET_UPDATES`
abbrev pub tg_api_get_updates : ℕ
tg_api_get_updates = 0

-- `struct tg_module_handle`
pub record TgModuleHandle (P : Type 0) : Type 0 where
  pub ctx : P
  pub update : P

-- `struct gw_ring_sqe`: `user_data` first, then the member of the union that `op` selects.
-- `other k` is an `op` outside the enumeration, 3 + k.
pub data GwRingSqe (P : Type 0) : Type 0 where
  nop : ℕ → GwRingSqe P
  tg_api_call : ℕ → TgApiCall P → GwRingSqe P
  tg_module_handle : ℕ → TgModuleHandle P → GwRingSqe P
  other : (k user_data : ℕ) → GwRingSqe P

abbrev pub sqe_op : {P : Type 0} → GwRingSqe P → ℕ
sqe_op (nop _) = 0
sqe_op (tg_api_call _ _) = 1
sqe_op (tg_module_handle _ _) = 2
sqe_op (other k _) = 3 + k

abbrev pub sqe_user_data : {P : Type 0} → GwRingSqe P → ℕ
sqe_user_data (nop d) = d
sqe_user_data (tg_api_call d _) = d
sqe_user_data (tg_module_handle d _) = d
sqe_user_data (other _ d) = d

-- `struct gw_ring_cqe`
pub record GwRingCqe : Type 0 where
  pub op : ℕ
  pub res : ℤ
  pub flags : ℕ
  pub user_data : ℕ

-- `struct gw_ring`, without the locks and the condition variable. `W` is the work queue.
pub record GwRing (P W : Type 0) : Type 0 where
  pub should_stop : Bool
  pub wait_cqe_cond_flag : Bool
  pub sq_head : ℕ
  pub sq_tail : ℕ
  pub sq_mask : ℕ
  pub cq_head : ℕ
  pub cq_tail : ℕ
  pub cq_mask : ℕ
  pub cqes : List GwRingCqe
  pub sqes : List (GwRingSqe P)
  pub wq : W
