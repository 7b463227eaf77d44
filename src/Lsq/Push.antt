-- ===== src/Lsq/Push.antt =====
-- A memory operation of an instruction enters the queue: `LSQ::pushRequest` of src/cpu/o3/lsq.cc, and
-- `getVaddr`, `mainReq` and `mainPacket` of the requests.
use patch_tectreee.Base.{
  ℕ, Bool, true, false, not, ◌&&◌, ◌||◌, ◌==◌, if◌then◌else◌, Option, none, some, List, length,
  get_elem?,
}
use patch_tectreee.Base.Outcome.{Outcome, ok, ◌>>=◌, ◌>>◌, assert, deref}
use patch_tectreee.Request.Constants.{htm_cmd, tlbi_cmd}
use patch_tectreee.Request.State.{RequestPlatform, Request}
use patch_tectreee.Request.Access.{get_vaddr}
use patch_tectreee.Lsq.Platform.{LsqPlatform}
use patch_tectreee.Lsq.State.{
  Inst, LsqPacket, LsqRequest, lsq_request, is_translation_complete, is_mem_access_required,
}
use patch_tectreee.Lsq.Fragments.{initiate_split, initiate_single, initiate_direct}

-- The classes of a request.
pub data Kind : Type 0 where
  single split direct : Kind

-- The arguments of `pushRequest`; `saved` is `inst->savedRequest`.
pub record Access (q : RequestPlatform) (l : LsqPlatform) : Type 0 where
  pub is_load : Bool
  pub size : ℕ
  pub addr : ℕ
  pub flags : (q.word 64).Flags
  pub res : Option ℕ
  pub amo_op : Option q.AtomicOpFunctor
  pub byte_enable : List Bool
  pub saved : Option (LsqRequest q l)

-- What `pushRequest` uses of the CPU and of the unit: the size of a line, the current tick and task,
-- the closure of `addReq`, the answers that the translation gives before `initiateTranslation` returns,
-- and `read` and `write`, which may change the instruction.
pub record Cpu (q : RequestPlatform) (l : LsqPlatform) : Type 0 where
  pub line : ℕ
  pub now : ℕ
  pub task_id : ℕ
  pub accessor : q.LocalAccessor
  pub answers : LsqRequest q l → Inst q l → Outcome (LsqRequest q l × Inst q l)
  pub access : Bool → LsqRequest q l → Inst q l → Option l.FaultObject × Inst q l

module _ (q : RequestPlatform) (l : LsqPlatform) where
  open q use {word}
  open l use {FaultObject, transfer_needs_burst}

  unfoldable pub req_vaddr : LsqRequest q l → Outcome ℕ
  req_vaddr r = do req ← deref (get_elem? r.reqs 0); get_vaddr q req

  unfoldable pub main_req_single : LsqRequest q l → Outcome (Request q)
  main_req_single r = assert (length r.reqs == 1) >> deref (get_elem? r.reqs 0)

  unfoldable pub main_req_split : LsqRequest q l → Option (Request q)
  main_req_split r = r.main_req

  unfoldable pub main_packet_single : LsqRequest q l → Outcome LsqPacket
  main_packet_single r = assert (length r.packets == 1) >> deref (get_elem? r.packets 0)

  unfoldable pub main_packet_split : LsqRequest q l → Option LsqPacket
  main_packet_split r = r.main_packet

  -- A load with one of the flags of a command of a transaction or of a translation invalidation.
  unfoldable pub is_command : Access q l → Bool
  is_command a =
      (a.is_load && (word 64).is_set a.flags htm_cmd)
      || (a.is_load && (word 64).is_set a.flags tlbi_cmd)

  abbrev is_present : {A : Type 0} → Option A → Bool
  is_present none = false
  is_present (some a) = true

  -- The request that is made for an access.
  unfoldable pub make_request : Cpu q l → Inst q l → Access q l → Outcome (Kind × LsqRequest q l)
  make_request c inst a =
      let burst = transfer_needs_burst a.addr a.size c.line in
      if is_command a
      then (do
        assert (a.addr == 0)
        assert (a.size == 8)
        ok (Kind.direct, lsq_request q l inst false true 0 8 a.flags none none))
      else ok (
          if burst
          then (Kind.split, lsq_request q l inst true a.is_load a.addr a.size a.flags a.res none)
          else (
            Kind.single,
            lsq_request q l inst false a.is_load a.addr a.size a.flags a.res a.amo_op,
          ))

  -- `initiateTranslation` of each class, with the answers that come at once.
  unfoldable pub initiate :
      Cpu q l → Kind → LsqRequest q l → Inst q l → Outcome (LsqRequest q l × Inst q l)
  initiate c Kind.single r inst = do
    (r', inst') ← initiate_single q l c.now c.accessor r inst
    c.answers r' inst'
  initiate c Kind.split r inst = do
    (r', inst') ← initiate_split q l c.now c.line c.accessor r inst
    c.answers r' inst'
  initiate c Kind.direct r inst = initiate_direct q l c.now c.accessor r inst

  -- A new request, whose translation begins.
  unfoldable pub start : Cpu q l → Inst q l → Access q l → Outcome (LsqRequest q l × Inst q l)
  start c inst a = do
    (kind, r) ← make_request c inst a
    initiate c kind (record r { byte_enable = a.byte_enable; task_id = c.task_id })
        (record inst { request_made = true; inst_fault = none })

  -- The request of the instruction: that of an earlier attempt, or a new one.
  unfoldable pub obtain : Cpu q l → Inst q l → Access q l → Outcome (LsqRequest q l × Inst q l)
  obtain c inst a =
      let begun = start c inst a in
      let earlier : Outcome (LsqRequest q l × Inst q l) = (do r ← deref a.saved; ok (r, inst)) in
      if inst.translation_started then earlier else begun

  -- The end of `pushRequest`, with the request.
  unfoldable pub perform : Cpu q l → Access q l → LsqRequest q l → Inst q l → Outcome (Inst q l)
  perform c a r inst =
      let accessed : Outcome (Inst q l) = (do
        vaddr ← req_vaddr r
        let inst' : Inst q l = record inst {
          eff_addr = vaddr;
          eff_size = a.size;
          eff_addr_valid = true;
        }
        let (fault, inst'') = c.access a.is_load r inst'
        ok (elim fault [ none ↦ inst'' | some f ↦ record inst'' { inst_fault = some f } ])) in
      if is_translation_complete q l r
      then (if is_mem_access_required q l r
          then accessed
          else ok (
              if a.is_load
              then record inst { mem_acc_predicate = false; executed = true }
              else inst))
      else ok inst

  -- `pushRequest`, up to the checker and the trace: the fault that it returns, and the instruction.
  unfoldable pub push_request :
      Cpu q l → Inst q l → Access q l → Outcome (Option FaultObject × Inst q l)
  push_request c inst a = do
    assert (
        not (not a.is_load && is_present a.amo_op)
        || not (transfer_needs_burst a.addr a.size c.line))
    (r, inst') ← obtain c inst a
    inst'' ← perform c a r inst'
    ok (inst''.inst_fault, inst'')
