-- ===== src/Lsq/Fragments.antt =====
-- How a data access is cut into requests, one to a cache line: `addReq` and the two methods
-- `initiateTranslation` of src/cpu/o3/lsq.cc. `now` is `curTick()`, and `accessor` the closure that
-- `addReq` builds for a request without an access.
use patch_tectreee.Base.{
  ℕ, zero, suc, ◌+◌, ◌-◌, ◌%◌, ◌^◌, Bool, true, false, ltb, ◌==◌, if◌then◌else◌, none, some, List,
  [], ◌∷◌, ◌++◌, length, replicate,
}
use patch_tectreee.Base.Outcome.{Outcome, ok, abort, ◌>>=◌, ◌>>◌, assert}
use patch_tectreee.Request.Constants.{no_access}
use patch_tectreee.Request.State.{RequestPlatform, Request, virtual_request, set_paddr, from_begin}
use patch_tectreee.Request.Access.{
  set_byte_enable, set_local_accessor, set_req_inst_seq_num, set_task_id, set_inst_count, get_paddr,
  get_flags,
}
use patch_tectreee.Request.Query.{is_strictly_ordered}
use patch_tectreee.Lsq.Platform.{LsqPlatform}
use patch_tectreee.Lsq.State.{State, Inst, LsqRequest}

-- The arguments of one call of `addReq`.
pub record Piece : Type 0 where
  pub addr : ℕ
  pub size : ℕ
  pub bytes : List Bool

module _ (q : RequestPlatform) (l : LsqPlatform) where
  open q use {word, LocalAccessor}
  open l use {addr_block_align, is_any_active_element}

  -- The request that `addReq` makes of an access with an active byte.
  unfoldable pub fragment :
      ℕ → LocalAccessor → LsqRequest q l → Inst q l → Piece → Outcome (Request q)
  fragment now accessor r inst p = do
    req ←
        set_byte_enable q
          (virtual_request q now p.addr p.size r.request_flags inst.requestor_id inst.inst_addr
            inst.context_id r.amo_op)
          p.bytes
    let req' : Request q = record req { is_mem_barrier = some inst.mem_barrier_executed_before }
    ok (
        if (word 64).is_set r.request_flags no_access
        then set_local_accessor q req' (some accessor)
        else req')

  -- `addReq`: the atomic operation moves to the first request that is made.
  unfoldable pub add_req :
      ℕ → LocalAccessor → Inst q l → LsqRequest q l → Piece → Outcome (LsqRequest q l)
  add_req now accessor inst r p =
      if is_any_active_element p.bytes
      then (do
        req ← fragment now accessor r inst p
        ok (record r { reqs = r.reqs ++ req ∷ []; amo_op = none }))
      else ok r

  unfoldable pub add_reqs :
      ℕ → LocalAccessor → Inst q l → LsqRequest q l → List Piece → Outcome (LsqRequest q l)
  add_reqs now accessor inst r [] = ok r
  add_reqs now accessor inst r (p ∷ ps) = do
    r' ← add_req now accessor inst r p
    add_reqs now accessor inst r' ps

  -- The byte enables from `start` on, `n` of them.
  unfoldable pub slice : List Bool → ℕ → ℕ → Outcome (List Bool)
  slice bytes start n = do
    (before, rest) ← from_begin q bytes start
    (piece, after) ← from_begin q rest n
    ok piece

  -- The loop over whole lines, and the size that it has covered; without fuel it stops.
  unfoldable pub whole_lines : ℕ → ℕ → ℕ → ℕ → ℕ → List Bool → Outcome (List Piece × ℕ)
  whole_lines zero line base_addr final_addr size_so_far bytes = abort
  whole_lines (suc fuel) line base_addr final_addr size_so_far bytes =
      let rest : Outcome (List Piece × ℕ) = (do
        piece ← slice bytes size_so_far line
        (ps, covered) ←
            whole_lines fuel line ((base_addr + line) % 2 ^ 64) final_addr
              ((size_so_far + line) % 2 ^ 32) bytes
        ok (record { addr = base_addr; size = line; bytes = piece } ∷ ps, covered)) in
      if base_addr == final_addr then ok ([], size_so_far) else rest

  -- The tail, if there is one.
  unfoldable pub tail_piece : ℕ → ℕ → ℕ → List Bool → Outcome (List Piece)
  tail_piece base_addr size size_so_far bytes =
      if ltb size_so_far size
      then (do
        (before, rest) ← from_begin q bytes size_so_far
        ok (
            record { addr = base_addr; size = (size + 2 ^ 32 - size_so_far) % 2 ^ 32; bytes = rest }
            ∷ []))
      else ok []

  -- The calls of `addReq` by `SplitDataRequest::initiateTranslation`, in order.
  unfoldable pub split_pieces : ℕ → ℕ → ℕ → List Bool → Outcome (List Piece)
  split_pieces line addr size bytes = do
    let next_addr = addr_block_align ((addr + line) % 2 ^ 64) line
    let final_addr = addr_block_align ((addr + size) % 2 ^ 64) line
    let prefix = (next_addr + 2 ^ 64 - addr) % 2 ^ 64
    first ← slice bytes 0 prefix
    (lines, covered) ← whole_lines (suc size) line next_addr final_addr (prefix % 2 ^ 32) bytes
    tail ← tail_piece final_addr size covered bytes
    ok (record { addr = addr; size = prefix % 2 ^ 32; bytes = first } ∷ lines ++ tail)

  -- The loop that gives each request the sequence number and the task.
  unfoldable pub set_up : ℕ → ℕ → List (Request q) → List (Request q)
  set_up seq_num task_id [] = []
  set_up seq_num task_id (r ∷ rs) =
      set_task_id q (set_req_inst_seq_num q r seq_num) task_id ∷ set_up seq_num task_id rs

  -- The fragments are sent to translation, `n` of them; the request and the instruction note it.
  abbrev sent_to_translation : ℕ → LsqRequest q l → Inst q l → LsqRequest q l × Inst q l
  sent_to_translation n r inst =
      let f = r.flags in
      (
        record r {
          state = State.translation;
          flags = record f { translation_started = true };
          num_in_translation_fragments = n;
        },
        record inst { translation_started = true; has_saved_request = true },
      )

  -- The end of `SplitDataRequest::initiateTranslation`, after the calls of `addReq`.
  unfoldable pub send_fragments : LsqRequest q l → Inst q l → LsqRequest q l × Inst q l
  send_fragments r inst =
      if ltb 0 (length r.reqs)
      then sent_to_translation (length r.reqs)
          (record r {
            reqs = set_up inst.seq_num r.task_id r.reqs;
            num_translated_fragments = 0;
            faults = replicate (length r.reqs) none;
          })
          inst
      else (r, record inst { mem_acc_predicate = false })

  -- `SplitDataRequest::initiateTranslation`.
  unfoldable pub initiate_split :
      ℕ → ℕ → LocalAccessor → LsqRequest q l → Inst q l → Outcome (LsqRequest q l × Inst q l)
  initiate_split now line accessor r inst = do
    main ←
        set_byte_enable q
          (virtual_request q now r.addr r.size r.request_flags inst.requestor_id inst.inst_addr
            inst.context_id none)
          r.byte_enable
    pieces ← split_pieces line r.addr r.size r.byte_enable
    r' ← add_reqs now accessor inst (record r { main_req = some (set_paddr q main 0) }) pieces
    ok (send_fragments r' inst)

  -- `SingleDataRequest::initiateTranslation`.
  unfoldable pub initiate_single :
      ℕ → LocalAccessor → LsqRequest q l → Inst q l → Outcome (LsqRequest q l × Inst q l)
  initiate_single now accessor r inst = do
    assert (length r.reqs == 0)
    r' ←
        add_req now accessor inst r (record { addr = r.addr; size = r.size; bytes = r.byte_enable })
    ok (
        if ltb 0 (length r'.reqs)
        then sent_to_translation (r'.num_in_translation_fragments + 1)
            (record r' { reqs = set_up inst.seq_num r'.task_id r'.reqs }) inst
        else (r', record inst { mem_acc_predicate = false }))

  -- `UnsquashableDirectRequest::initiateTranslation`: the command is translated at once; without an
  -- active byte it is a panic.
  unfoldable pub initiate_direct :
      ℕ → LocalAccessor → LsqRequest q l → Inst q l → Outcome (LsqRequest q l × Inst q l)
  initiate_direct now accessor r inst = do
    assert (length r.reqs == 0)
    r' ←
        add_req now accessor inst r (record { addr = r.addr; size = r.size; bytes = r.byte_enable })
    elim r'.reqs [
      | [] ↦ abort
      | req ∷ rest ↦ do
        let req' =
            set_inst_count q
              (set_paddr q (set_task_id q (set_req_inst_seq_num q req inst.seq_num) r'.task_id)
                r.addr)
              inst.total_insts
        paddr ← get_paddr q req'
        flags ← get_flags q req'
        let f = r'.flags
        ok (
          record r' {
            reqs = req' ∷ [];
            state = State.request;
            flags = record f { translation_started = true; translation_finished = true };
          },
          record inst {
            strictly_ordered = is_strictly_ordered q req';
            inst_fault = none;
            phys_eff_addr = paddr;
            mem_req_flags = flags;
            has_saved_request = true;
            translation_started = true;
            translation_completed = true;
          },
        )
    ]
