-- ===== src/Iew/Dispatch.antt =====
-- The instructions of one thread are dispatched: `dispatchInsts`, `dispatch` and the part of `tick` that
-- calls them, of src/cpu/o3/iew.cc.
use patch_tectreee.Base.{
  ℕ, zero, suc, ◌+◌, Bool, true, false, not, ◌&&◌, ◌||◌, ltb, if◌then◌else◌, List, [], ◌∷◌, length,
}
use patch_tectreee.Base.Outcome.{Outcome, ok, abort, ◌>>=◌, ◌>>◌, assert}
use patch_tectreee.Iew.Stage.{
  StageStatus, IewInst, IewPlatform, ToRename, FromCommit, credit, is_unblocking, is_idle, Stage,
  skid_insert, block, unblock, check_signals_and_update,
}

module _ (p : IewPlatform) where
  open p use {Queues, iq_full, lq_full, sq_full}

  -- The queue that dispatch takes from.
  abbrev pub source : Bool → Stage p → List IewInst
  source true s = s.skid_buffer
  source false s = s.insts

  abbrev pub with_source : Bool → List IewInst → Stage p → Stage p
  with_source true is s = record s { skid_buffer = is }
  with_source false is s = record s { insts = is }

  -- Dispatch blocks, and takes back that it unblocked.
  unfoldable pub block_again : Stage p → Outcome (Stage p)
  block_again s = do
    s' ← block p s
    let t = s'.to_rename
    ok (record s' { to_rename = record t { iew_unblock = false } })

  -- Whether the queue that the instruction needs is full.
  unfoldable pub ldst_full : IewInst → Queues → Bool
  ldst_full i queues =
      (i.is_atomic && sq_full queues)
      || (i.is_load && lq_full queues)
      || (i.is_store && sq_full queues)

  -- The end of an issue, with `add_to_iq`.
  unfoldable pub add : Bool → IewInst → Queues → Queues
  add false i queues = queues
  add true i queues = if i.is_non_speculative then p.insert_non_spec i queues else p.insert i queues

  -- The instruction is put in the queues of its class.
  unfoldable pub issue : IewInst → Queues → Outcome Queues
  issue i queues =
      let queues1 = p.mark_htm i queues in
      if i.is_atomic
      then ok (p.insert_non_spec i (p.insert_store i queues1))
      else if i.is_load
      then ok (add true i (p.insert_load i queues1))
      else if i.is_store
      then ok (
          if i.is_store_conditional
          then p.insert_non_spec i (p.insert_store i queues1)
          else add true i (p.insert_store i queues1))
      else if i.is_barrier
      then ok (p.insert_barrier i queues1)
      else if i.is_nop
      then ok (p.record_producer i queues1)
      else (assert (not i.is_executed) >> ok (add true i queues1))

  -- What is reported of an instruction that was issued.
  unfoldable pub issued : IewInst → ToRename → ToRename
  issued i t = record t {
    dispatched = t.dispatched + 1;
    dispatched_to_lq =
        if not i.is_atomic && i.is_load then t.dispatched_to_lq + 1 else t.dispatched_to_lq;
    dispatched_to_sq =
        if i.is_atomic || (not i.is_load && i.is_store)
        then t.dispatched_to_sq + 1
        else t.dispatched_to_sq;
  }

  -- One turn of the loop of `dispatchInsts`, and whether the loop goes on.
  unfoldable pub dispatch_one : Bool → Stage p → Outcome (Bool × Stage p)
  dispatch_one unblocks s = elim (source unblocks s) [
    | [] ↦ abort
    | i ∷ is ↦
        let taken : Stage p = with_source unblocks is s in
        let stopped : Outcome (Bool × Stage p) = (do s' ← block_again s; ok (false, s')) in
        let sent : Outcome (Bool × Stage p) = (do
          queues' ← issue i s.queues
          ok (true, record taken { queues = queues'; to_rename = issued i s.to_rename })) in
        if i.is_squashed
        then ok (true, record taken { to_rename = credit i s.to_rename })
        else (if iq_full s.queues || ldst_full i s.queues then stopped else sent)
  ]

  unfoldable pub dispatch_loop : Bool → ℕ → Stage p → Outcome (Stage p)
  dispatch_loop unblocks zero s = ok s
  dispatch_loop unblocks (suc n) s = do
    (go_on, s') ← dispatch_one unblocks s
    let rest = dispatch_loop unblocks n s'
    if go_on then rest else ok s'

  -- An idle stage that took instructions runs.
  unfoldable pub wake : ℕ → Stage p → Stage p
  wake n s =
      if is_idle s.dispatch_status && ltb 0 n
      then record s { dispatch_status = StageStatus.running; updated_queues = true }
      else s

  -- The end of `dispatchInsts`, after `n` turns of the loop at most.
  unfoldable pub after_loop : Bool → ℕ → Stage p → Outcome (Stage p)
  after_loop unblocks n s = do
    s' ← elim (source unblocks s) [ [] ↦ ok s | i ∷ is ↦ block_again s ]
    ok (wake n s')

  unfoldable pub dispatch_insts : Stage p → Outcome (Stage p)
  dispatch_insts s = do
    let unblocks = is_unblocking s.dispatch_status
    let count = length (source unblocks s)
    let n = if ltb count s.dispatch_width then count else s.dispatch_width
    s' ← dispatch_loop unblocks n s
    after_loop unblocks n s'

  -- What follows `dispatchInsts` while dispatch is unblocking; `received` tells whether rename sent
  -- anything in this cycle.
  unfoldable pub finish_unblocking : Bool → Stage p → Outcome (Stage p)
  finish_unblocking received s = do
    s' ← if received then skid_insert p s else ok s
    ok (unblock p s')

  -- `dispatch` by the status; `skids_empty` tells whether the skid buffers of all active threads are
  -- empty.
  unfoldable pub dispatch_at : StageStatus → Bool → Bool → Stage p → Outcome (Stage p)
  dispatch_at StageStatus.running received skids_empty s = dispatch_insts s
  dispatch_at StageStatus.idle received skids_empty s = dispatch_insts s
  dispatch_at StageStatus.unblocking received skids_empty s =
      assert (not skids_empty) >> (dispatch_insts s >>= finish_unblocking received)
  dispatch_at _ received skids_empty s = ok s

  unfoldable pub dispatch : Bool → Bool → Stage p → Outcome (Stage p)
  dispatch received skids_empty s = dispatch_at s.dispatch_status received skids_empty s

  -- The part of `tick` for one thread.
  unfoldable pub cycle : FromCommit → Bool → Bool → Stage p → Outcome (Stage p)
  cycle c received skids_empty s = check_signals_and_update p c s >>= dispatch received skids_empty
