-- ===== src/Request/Access.antt =====
-- The accessors of a request: src/mem/request.hh. `now` is `curTick()`.
use patch_tectreee.Base.{
  ℕ, ◌+◌, ◌-◌, ◌%◌, ◌^◌, Bool, true, false, ◌||◌, ◌==◌, if◌then◌else◌, Option, none, some, List, [],
  ◌∷◌, length,
}
use patch_tectreee.Base.Outcome.{Outcome, ok, ◌>>◌, assert, deref}
use patch_tectreee.Request.Masks.{Mask, both_of}
use patch_tectreee.Request.Constants.{
  arch_bits, valid_size, valid_paddr, valid_vaddr, valid_inst_seq_num, valid_pc, valid_context_id,
  valid_extra_data, valid_stream_id, valid_substream_id, valid_htm_abort_cause, valid_inst_count,
  htm_abort,
}
use patch_tectreee.Request.State.{RequestPlatform, Request, is_valid, has_flag, mark_valid}

module _ (q : RequestPlatform) where
  open q use {word, ContextId, HtmFailureFaultCause, AtomicOpFunctor, LocalAccessor}

  unfoldable pub has_paddr : Request q → Bool
  has_paddr r = is_valid q r valid_paddr

  unfoldable pub get_paddr : Request q → Outcome ℕ
  get_paddr r = assert (has_paddr r) >> ok r.paddr

  unfoldable pub has_inst_count : Request q → Bool
  has_inst_count r = is_valid q r valid_inst_count

  unfoldable pub get_inst_count : Request q → Outcome ℕ
  get_inst_count r = assert (has_inst_count r) >> ok r.inst_count

  unfoldable pub set_inst_count : Request q → ℕ → Request q
  set_inst_count r val = record r {
    private_flags = mark_valid q r valid_inst_count;
    inst_count = val;
  }

  unfoldable pub has_size : Request q → Bool
  has_size r = is_valid q r valid_size

  unfoldable pub get_size : Request q → Outcome ℕ
  get_size r = assert (has_size r) >> ok r.size

  unfoldable pub set_byte_enable : Request q → List Bool → Outcome (Request q)
  set_byte_enable r be = assert (length be == r.size) >> ok (record r { byte_enable = be })

  -- `std::find(..., false) != end()`.
  unfoldable pub has_disabled : List Bool → Bool
  has_disabled [] = false
  has_disabled (b ∷ bytes) = if b then has_disabled bytes else true

  unfoldable pub is_masked : Request q → Bool
  is_masked r = has_disabled r.byte_enable

  unfoldable pub has_vaddr : Request q → Bool
  has_vaddr r = is_valid q r valid_vaddr

  unfoldable pub get_vaddr : Request q → Outcome ℕ
  get_vaddr r = assert (is_valid q r valid_vaddr) >> ok r.vaddr

  abbrev pub has_address : Request q → Bool
  has_address r = has_paddr r || has_vaddr r

  unfoldable pub get_time : Request q → Outcome ℕ
  get_time r = assert (has_address r) >> ok r.time

  unfoldable pub is_local_access : Request q → Bool
  is_local_access r = elim r.local_accessor [ none ↦ false | some _ ↦ true ]

  unfoldable pub set_local_accessor : Request q → Option LocalAccessor → Request q
  set_local_accessor r acc = record r { local_accessor = acc }

  unfoldable pub has_atomic_op_functor : Request q → Bool
  has_atomic_op_functor r = elim r.atomic_op_functor [ none ↦ false | some _ ↦ true ]

  unfoldable pub get_atomic_op_functor : Request q → Outcome AtomicOpFunctor
  get_atomic_op_functor r = deref r.atomic_op_functor

  unfoldable pub set_atomic_op_functor : Request q → Option AtomicOpFunctor → Request q
  set_atomic_op_functor r amo_op = record r { atomic_op_functor = amo_op }

  unfoldable pub has_htm_abort_cause : Request q → Bool
  has_htm_abort_cause r = is_valid q r valid_htm_abort_cause

  unfoldable pub get_htm_abort_cause : Request q → Outcome HtmFailureFaultCause
  get_htm_abort_cause r = assert (has_htm_abort_cause r) >> ok r.htm_abort_cause

  unfoldable pub set_htm_abort_cause : Request q → HtmFailureFaultCause → Outcome (Request q)
  set_htm_abort_cause r val =
      assert (has_flag q r htm_abort)
      >> ok
          (record r { private_flags = mark_valid q r valid_htm_abort_cause; htm_abort_cause = val })

  unfoldable pub get_flags : Request q → Outcome ((word 64).Flags)
  get_flags r = assert (has_address r) >> ok r.flags

  unfoldable pub set_flags : Request q → Mask → Outcome (Request q)
  set_flags r flags =
      assert (has_address r) >> ok (record r { flags = (word 64).set r.flags flags })

  unfoldable pub clear_flags : Request q → Mask → Outcome (Request q)
  clear_flags r flags =
      assert (has_address r) >> ok (record r { flags = (word 64).clear r.flags flags })

  unfoldable pub set_cache_coherence_flags : Request q → Mask → Outcome (Request q)
  set_cache_coherence_flags r extra_flags =
      assert (has_address r)
      >> ok (record r { cache_coherence_flags = (word 64).set r.cache_coherence_flags extra_flags })

  unfoldable pub clear_cache_coherence_flags : Request q → Mask → Outcome (Request q)
  clear_cache_coherence_flags r extra_flags =
      assert (has_address r)
      >> ok
          (record r { cache_coherence_flags = (word 64).clear r.cache_coherence_flags extra_flags })

  unfoldable pub set_requestor_id : Request q → ℕ → Request q
  set_requestor_id r rid = record r { requestor_id = rid }

  unfoldable pub set_task_id : Request q → ℕ → Request q
  set_task_id r id = record r { task_id = id }

  unfoldable pub get_arch_flags : Request q → Outcome Mask
  get_arch_flags r = assert (has_address r) >> ok (both_of ((word 64).bits r.flags) arch_bits)

  unfoldable pub extra_data_valid : Request q → Bool
  extra_data_valid r = is_valid q r valid_extra_data

  unfoldable pub get_extra_data : Request q → Outcome ℕ
  get_extra_data r = assert (extra_data_valid r) >> ok r.extra_data

  unfoldable pub set_extra_data : Request q → ℕ → Request q
  set_extra_data r extra = record r {
    extra_data = extra;
    private_flags = mark_valid q r valid_extra_data;
  }

  unfoldable pub has_context_id : Request q → Bool
  has_context_id r = is_valid q r valid_context_id

  unfoldable pub get_context_id : Request q → Outcome ContextId
  get_context_id r = assert (has_context_id r) >> ok r.context_id

  unfoldable pub set_system_req : Request q → Bool → Request q
  set_system_req r sys_req = record r { system_req = sys_req }

  unfoldable pub has_stream_id : Request q → Bool
  has_stream_id r = is_valid q r valid_stream_id

  unfoldable pub get_stream_id : Request q → Outcome ℕ
  get_stream_id r = assert (has_stream_id r) >> ok r.stream_id

  unfoldable pub has_substream_id : Request q → Bool
  has_substream_id r = is_valid q r valid_substream_id

  unfoldable pub get_substream_id : Request q → Outcome ℕ
  get_substream_id r = assert (has_substream_id r) >> ok r.substream_id

  unfoldable pub set_pc : Request q → ℕ → Request q
  set_pc r pc = record r { private_flags = mark_valid q r valid_pc; pc = pc }

  unfoldable pub has_pc : Request q → Bool
  has_pc r = is_valid q r valid_pc

  unfoldable pub get_pc : Request q → Outcome ℕ
  get_pc r = assert (has_pc r) >> ok r.pc

  -- The depth is an `int` that only grows; its overflow is not modelled.
  unfoldable pub inc_access_depth : Request q → Request q
  inc_access_depth r = record r { depth = r.depth + 1 }

  abbrev pub ticks_between : ℕ → ℕ → ℕ
  ticks_between from to = (to + 2 ^ 64 - from) % 2 ^ 64

  unfoldable pub set_translate_latency : Request q → ℕ → Request q
  set_translate_latency r now = record r { translate_delta = ticks_between r.time now }

  unfoldable pub set_access_latency : Request q → ℕ → Request q
  set_access_latency r now = record r {
    access_delta = ticks_between r.translate_delta (ticks_between r.time now);
  }

  unfoldable pub has_inst_seq_num : Request q → Bool
  has_inst_seq_num r = is_valid q r valid_inst_seq_num

  unfoldable pub get_req_inst_seq_num : Request q → Outcome ℕ
  get_req_inst_seq_num r = assert (has_inst_seq_num r) >> ok r.req_inst_seq_num

  unfoldable pub set_req_inst_seq_num : Request q → ℕ → Request q
  set_req_inst_seq_num r seq_num = record r {
    private_flags = mark_valid q r valid_inst_seq_num;
    req_inst_seq_num = seq_num;
  }
