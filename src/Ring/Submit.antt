-- ===== src/Ring/Submit.antt =====
-- punt_to_io_wq, submit_sqe, gw_ring_submit, and the callbacks of the work queue (core/ring.c).
use gnuweeb_bot.Common.{
  ℕ, zero, suc, ◌+◌, ◌≡◌, ◌⊎◌, Bool, true, false, Option, none, some, List, [], ◌∷◌, ◌++◌, ◌==◌,
  if◌then◌else◌, bit_and, get_elem?,
}
use gnuweeb_bot.Common.Int.{ℤ, pos, is_neg}
use gnuweeb_bot.Common.Errno.{eopnotsupp, eownerdead}
use gnuweeb_bot.Common.Word.{u32_add}
use gnuweeb_bot.Ring.{
  GwRing, GwRingSqe, nop, tg_api_call, tg_module_handle, other, TgApiCall, TgModuleHandle,
  tg_api_get_updates,
}
use gnuweeb_bot.Ring.Complete.{post_cqe}

-- What the ring uses of its work queue. `allocate` is the `malloc` in punt_to_io_wq; `queue_work`
-- has no result where the caller sleeps for ever.
pub record IoWq (W A : Type 0) : Type 0 where
  pub allocate : W → Bool × W
  pub queue_work : W → A → Option (ℤ × W)
  pub final :
      (w w' : W) (arg : A) (ret : ℤ)
      → queue_work w arg ≡ some (ret, w')
      → (ret ≡ pos 0) ⊎ (ret ≡ eownerdead)

module _ {P W : Type 0} (io : IoWq W (GwRingSqe P)) where
  -- The data of the work is the ring, of which there is one, and a copy of the submission.
  unfoldable pub punt_to_io_wq : GwRing P W → GwRingSqe P → Option (Bool × GwRing P W)
  punt_to_io_wq ring sqe =
      let (found, wq) = io.allocate ring.wq in
      if found
      then elim (io.queue_work wq sqe) [
        | none ↦ none
        | some (ret, wq') ↦ some (if is_neg ret then false else true, record ring { wq = wq' })
      ]
      else some (false, record ring { wq = wq })

  -- The addresses are those of the updates that `tgapi_free_update` frees.
  abbrev pub Issued : Type 0
  Issued = Option (Bool × List P × GwRing P W)

  unfoldable pub issue_op_nop : GwRing P W → GwRingSqe P → Issued
  unfolding post_cqe
  issue_op_nop ring sqe = let (ok, woken, ring') = post_cqe ring sqe (pos 0) in some (ok, [], ring')

  unfoldable pub issue_op_tg_api_call : GwRing P W → GwRingSqe P → Issued
  unfolding punt_to_io_wq
  issue_op_tg_api_call ring sqe = elim (punt_to_io_wq ring sqe) [
    | none ↦ none
    | some (ok, ring') ↦ some (ok, [], ring')
  ]

  unfoldable pub issue_op_module_handle : GwRing P W → GwRingSqe P → TgModuleHandle P → Issued
  unfolding punt_to_io_wq
  issue_op_module_handle ring sqe handle = elim (punt_to_io_wq ring sqe) [
    | none ↦ none
    | some (ok, ring') ↦ some (ok, if ok then [] else handle.update ∷ [], ring')
  ]

  unfoldable pub submit_sqe : GwRing P W → GwRingSqe P → Issued
  unfolding issue_op_nop issue_op_tg_api_call issue_op_module_handle
  submit_sqe ring (nop d) = issue_op_nop ring (nop d)
  submit_sqe ring (tg_api_call d call) = issue_op_tg_api_call ring (tg_api_call d call)
  submit_sqe ring (tg_module_handle d handle) =
      issue_op_module_handle ring (tg_module_handle d handle) handle
  submit_sqe ring (other k d) = some (false, [], ring)

  -- The loop of `gw_ring_submit`: the number of submissions that were issued, the updates freed, and
  -- the ring with the new `sq_head`. `none` means that the fuel ran out, a read outside the array,
  -- or a caller that sleeps for ever.
  unfoldable pub submit_from :
      ℕ → GwRing P W → (sq_head sq_tail ret : ℕ) → List P → Option (ℕ × List P × GwRing P W)
  unfolding submit_sqe
  submit_from zero ring sq_head sq_tail ret freed = none
  submit_from (suc fuel) ring sq_head sq_tail ret freed =
      if sq_head == sq_tail
      then some (ret, freed, record ring { sq_head = sq_head })
      else elim (get_elem? ring.sqes (bit_and sq_head ring.sq_mask)) [
        | none ↦ none
        | some sqe ↦ elim (submit_sqe ring sqe) [
          | none ↦ none
          | some (ok, more, ring') ↦
              submit_from fuel ring' (u32_add sq_head 1) sq_tail (if ok then ret + 1 else ret)
                (freed ++ more)
        ]
      ]

  -- `int ret` holds the count for every ring of at most `2 ^ 30` submissions.
  unfoldable pub gw_ring_submit : ℕ → GwRing P W → Option (ℤ × List P × GwRing P W)
  unfolding submit_from
  gw_ring_submit fuel ring =
      if ring.should_stop
      then some (eownerdead, [], ring)
      else elim (submit_from fuel ring ring.sq_head ring.sq_tail 0 []) [
        | none ↦ none
        | some (ret, freed, ring') ↦ some (pos ret, freed, ring')
      ]

-- `tgapi_call_get_updates` and `gw_module_handle`, with what they change: `E` is the world.
pub record Handlers (P E : Type 0) : Type 0 where
  pub tgapi_call_get_updates : P → P → ℤ → E → ℤ × E
  pub gw_module_handle : P → P → E → ℤ × E

module _ {P E : Type 0} (handlers : Handlers P E) where
  -- The status of the call, before `post_cqe`.
  unfoldable pub call_result : TgApiCall P → E → ℤ × E
  call_result call world =
      if call.op == tg_api_get_updates
      then handlers.tgapi_call_get_updates call.ctx call.updates_p call.offset world
      else (eopnotsupp, world)

module _ {P W E : Type 0} (handlers : Handlers P E) where
  -- `gw_ring_wq_sqe_exec`, for the sake of the ring and of the world. The result of `post_cqe` is
  -- dropped.
  unfoldable pub gw_ring_wq_sqe_exec : GwRing P W → GwRingSqe P → E → GwRing P W × E
  unfolding call_result post_cqe
  gw_ring_wq_sqe_exec ring (nop d) world =
      let (ok, woken, ring') = post_cqe ring (nop d) (pos 0) in (ring', world)
  gw_ring_wq_sqe_exec ring (tg_api_call d call) world =
      let (res, world') = call_result handlers call world in
      let (ok, woken, ring') = post_cqe ring (tg_api_call d call) res in (ring', world')
  gw_ring_wq_sqe_exec ring (tg_module_handle d handle) world =
      let (res, world') = handlers.gw_module_handle handle.ctx handle.update world in
      let (ok, woken, ring') = post_cqe ring (tg_module_handle d handle) res in (ring', world')
  gw_ring_wq_sqe_exec ring (other k d) world = (ring, world)

-- `gw_ring_wq_sqe_delete`: the updates it frees, beside the data.
abbrev pub gw_ring_wq_sqe_delete : {P : Type 0} → GwRingSqe P → List P
gw_ring_wq_sqe_delete (tg_module_handle d handle) = handle.update ∷ []
gw_ring_wq_sqe_delete _ = []
