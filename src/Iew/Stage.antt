-- ===== src/Iew/Stage.antt =====
-- How one thread's instructions are dispatched: src/cpu/o3/iew.cc. The state is that of one thread;
-- statistics, traces and the probe point are left out.
use patch_tectreee.Base.{
  ℕ, ◌+◌, Bool, true, false, ◌||◌, leb, if◌then◌else◌, List, [], ◌∷◌, ◌++◌, length,
}
use patch_tectreee.Base.Outcome.{Outcome, ok, ◌>>=◌, ◌>>◌, assert}

-- `StageStatus`.
pub data StageStatus : Type 0 where
  running blocked idle start_squash squashing unblocking : StageStatus

-- What dispatch asks of an instruction.
pub record IewInst : Type 0 where
  pub is_squashed : Bool
  pub is_load : Bool
  pub is_store : Bool
  pub is_atomic : Bool
  pub is_store_conditional : Bool
  pub is_barrier : Bool
  pub is_nop : Bool
  pub is_executed : Bool
  pub is_non_speculative : Bool

-- The instruction queue and the load/store queue, which are not modelled here; `mark_htm` tracks the
-- transactional state of an instruction.
pub record IewPlatform : Type 1 where
  pub Queues : Type 0
  pub iq_full : Queues → Bool
  pub lq_full : Queues → Bool
  pub sq_full : Queues → Bool
  pub iq_squash : Queues → Queues
  pub ldst_squash : Queues → Queues
  pub mark_htm : IewInst → Queues → Queues
  pub insert_load : IewInst → Queues → Queues
  pub insert_store : IewInst → Queues → Queues
  pub insert : IewInst → Queues → Queues
  pub insert_non_spec : IewInst → Queues → Queues
  pub insert_barrier : IewInst → Queues → Queues
  pub record_producer : IewInst → Queues → Queues

-- What a cycle tells the stage `rename`.
pub record ToRename : Type 0 where
  pub iew_block : Bool
  pub iew_unblock : Bool
  pub dispatched : ℕ
  pub dispatched_to_lq : ℕ
  pub dispatched_to_sq : ℕ

-- What the stage `commit` tells.
pub record FromCommit : Type 0 where
  pub squash : Bool
  pub rob_squashing : Bool

-- An instruction that leaves the stage is reported with its place in the load or the store queue.
unfoldable pub credit : IewInst → ToRename → ToRename
credit i t = record t {
  dispatched = t.dispatched + 1;
  dispatched_to_lq = if i.is_load then t.dispatched_to_lq + 1 else t.dispatched_to_lq;
  dispatched_to_sq =
      if i.is_store || i.is_atomic then t.dispatched_to_sq + 1 else t.dispatched_to_sq;
}

-- The loops that empty a queue of instructions.
unfoldable pub credit_all : List IewInst → ToRename → ToRename
credit_all [] t = t
credit_all (i ∷ is) t = credit_all is (credit i t)

abbrev pub is_blocking : StageStatus → Bool
is_blocking StageStatus.blocked = true
is_blocking StageStatus.unblocking = true
is_blocking _ = false

abbrev pub is_unblocking : StageStatus → Bool
is_unblocking StageStatus.unblocking = true
is_unblocking _ = false

abbrev pub is_idle : StageStatus → Bool
is_idle StageStatus.idle = true
is_idle _ = false

module _ (p : IewPlatform) where
  open p use {Queues, iq_full}

  pub record Stage : Type 0 where
    pub dispatch_status : StageStatus
    pub insts : List IewInst
    pub skid_buffer : List IewInst
    pub skid_buffer_max : ℕ
    pub dispatch_width : ℕ
    pub to_rename : ToRename
    pub wrote_to_time_buffer : Bool
    pub updated_queues : Bool
    pub fetch_redirect : Bool
    pub queues : Queues

  unfoldable pub empty_rename_insts : Stage → Stage
  empty_rename_insts s = record s { insts = []; to_rename = credit_all s.insts s.to_rename }

  unfoldable pub squash : Stage → Stage
  squash s = empty_rename_insts (record s {
    queues = p.ldst_squash (p.iq_squash s.queues);
    updated_queues = true;
    skid_buffer = [];
    to_rename = credit_all s.skid_buffer s.to_rename;
  })

  unfoldable pub skid_insert : Stage → Outcome Stage
  skid_insert s =
      assert (leb (length (s.skid_buffer ++ s.insts)) s.skid_buffer_max)
      >> ok (record s { insts = []; skid_buffer = s.skid_buffer ++ s.insts })

  unfoldable pub block : Stage → Outcome Stage
  block s = do
    let t = s.to_rename
    s' ← skid_insert (
        if is_blocking s.dispatch_status
        then s
        else record s { to_rename = record t { iew_block = true }; wrote_to_time_buffer = true })
    ok (record s' { dispatch_status = StageStatus.blocked })

  unfoldable pub unblock : Stage → Stage
  unblock s =
      let t = s.to_rename in
      elim s.skid_buffer [
        | [] ↦ record s {
          to_rename = record t { iew_unblock = true };
          wrote_to_time_buffer = true;
          dispatch_status = StageStatus.running;
        }
        | i ∷ is ↦ s
      ]

  unfoldable pub check_stall : FromCommit → Stage → Bool
  check_stall c s = c.rob_squashing || iq_full s.queues

  -- `checkSignalsAndUpdate` where commit squashes.
  unfoldable pub on_squash : Stage → Stage
  on_squash s =
      let s1 : Stage = squash s in
      let t = s1.to_rename in
      let told : Stage =
        if is_blocking s.dispatch_status
        then record s1 { to_rename = record t { iew_unblock = true }; wrote_to_time_buffer = true }
        else s1 in
      record told { dispatch_status = StageStatus.squashing; fetch_redirect = false }

  -- `checkSignalsAndUpdate` where nothing stalls.
  unfoldable pub resume : Stage → Stage
  resume s = elim s.dispatch_status [
    | StageStatus.blocked ↦ unblock (record s { dispatch_status = StageStatus.unblocking })
    | StageStatus.squashing ↦ record s { dispatch_status = StageStatus.running }
    | _ ↦ s
  ]

  unfoldable pub check_signals_and_update : FromCommit → Stage → Outcome Stage
  check_signals_and_update c s =
      let e : Stage = empty_rename_insts s in
      let s1 : Stage =
        if c.rob_squashing
        then record e { dispatch_status = StageStatus.squashing; wrote_to_time_buffer = true }
        else s in
      if c.squash then ok (on_squash s) else (if check_stall c s1 then block s1 else ok (resume s1))
