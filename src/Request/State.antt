-- ===== src/Request/State.antt =====
-- A request, its constructors and the operations that prepare it: src/mem/request.hh.
-- `now` is `curTick()`.
use patch_tectreee.Base.{
  ℕ, zero, suc, ◌+◌, ◌-◌, ◌%◌, ◌^◌, Bool, true, false, not, ◌&&◌, ltb, Option, none, some, List, [],
  ◌∷◌, replicate,
}
use patch_tectreee.Base.Outcome.{Outcome, ok, abort, ◌>>=◌, ◌>>◌, assert}
use patch_tectreee.Request.Masks.{Mask, FlagWord, either_of, none_of}
use patch_tectreee.Request.Constants.{
  sticky_flags, sticky_private_flags, valid_size, valid_paddr, valid_vaddr, valid_pc,
  valid_context_id, valid_stream_id, valid_substream_id,
}

-- What the file uses and does not declare: the flag words, the identifiers of contexts and the causes
-- of aborts with their invalid values, atomic operations with `clone`, and local accessors.
pub record RequestPlatform : Type 1 where
  pub word : (w : ℕ) → FlagWord w
  pub ContextId : Type 0
  pub invalid_context_id : ContextId
  pub HtmFailureFaultCause : Type 0
  pub invalid_cause : HtmFailureFaultCause
  pub AtomicOpFunctor : Type 0
  pub clone : AtomicOpFunctor → AtomicOpFunctor
  pub LocalAccessor : Type 0
  pub max_tick : ℕ
  pub max_addr : ℕ
  pub invalid_requestor_id : ℕ

-- `is_mem_barrier` is `none` as long as nothing was written to it: no constructor initialises it.
pub record Request (q : RequestPlatform) : Type 0 where
  pub is_mem_barrier : Option Bool
  pub paddr : ℕ
  pub size : ℕ
  pub byte_enable : List Bool
  pub requestor_id : ℕ
  pub flags : (q.word 64).Flags
  pub cache_coherence_flags : (q.word 64).Flags
  pub private_flags : (q.word 16).Flags
  pub time : ℕ
  pub task_id : ℕ
  pub stream_id : ℕ
  pub substream_id : ℕ
  pub system_req : Bool
  pub vaddr : ℕ
  pub extra_data : ℕ
  pub context_id : q.ContextId
  pub pc : ℕ
  pub req_inst_seq_num : ℕ
  pub atomic_op_functor : Option q.AtomicOpFunctor
  pub local_accessor : Option q.LocalAccessor
  pub inst_count : ℕ
  pub htm_abort_cause : q.HtmFailureFaultCause
  pub translate_delta : ℕ
  pub access_delta : ℕ
  pub depth : ℕ

module _ (q : RequestPlatform) where
  open q use {
    word, ContextId, invalid_context_id, invalid_cause, AtomicOpFunctor, clone, max_tick, max_addr,
    invalid_requestor_id,
  }

  -- `privateFlags.isSet(mask)` and `_flags.isSet(mask)`.
  abbrev pub is_valid : Request q → Mask → Bool
  is_valid r m = (word 16).is_set r.private_flags m

  abbrev pub has_flag : Request q → Mask → Bool
  has_flag r m = (word 64).is_set r.flags m

  -- `privateFlags.set(mask)`.
  abbrev pub mark_valid : Request q → Mask → (word 16).Flags
  mark_valid r m = (word 16).set r.private_flags m

  -- `Request()`: the default values of the members.
  abbrev pub empty_request : Request q
  empty_request = record {
    is_mem_barrier = none;
    paddr = 0;
    size = 0;
    byte_enable = [];
    requestor_id = invalid_requestor_id;
    flags = (word 64).cleared;
    cache_coherence_flags = (word 64).cleared;
    private_flags = (word 16).cleared;
    time = max_tick;
    task_id = 1024;
    stream_id = 0;
    substream_id = 0;
    system_req = false;
    vaddr = max_addr;
    extra_data = 0;
    context_id = invalid_context_id;
    pc = max_addr;
    req_inst_seq_num = 0;
    atomic_op_functor = none;
    local_accessor = none;
    inst_count = 0;
    htm_abort_cause = invalid_cause;
    translate_delta = 0;
    access_delta = 0;
    depth = 0;
  }

  unfoldable pub set_context : Request q → ContextId → Request q
  set_context r context = record r {
    context_id = context;
    private_flags = mark_valid r valid_context_id;
  }

  unfoldable pub set_stream_id : Request q → ℕ → Request q
  set_stream_id r sid = record r { stream_id = sid; private_flags = mark_valid r valid_stream_id }

  unfoldable pub set_substream_id : Request q → ℕ → Outcome (Request q)
  set_substream_id r ssid = do
    assert (is_valid r valid_stream_id)
    ok (record r { substream_id = ssid; private_flags = mark_valid r valid_substream_id })

  unfoldable pub set_virt :
      Request q → ℕ → ℕ → ℕ → (word 64).Flags → ℕ → ℕ → Option AtomicOpFunctor → Request q
  set_virt r now vaddr size flags id pc amo_op = record r {
    vaddr = vaddr;
    size = size;
    requestor_id = id;
    pc = pc;
    time = now;
    flags = (word 64).set ((word 64).clear r.flags (none_of sticky_flags)) ((word 64).bits flags);
    private_flags =
        (word 16).set ((word 16).clear r.private_flags (none_of sticky_private_flags))
          (either_of valid_vaddr (either_of valid_size valid_pc));
    depth = 0;
    access_delta = 0;
    translate_delta = 0;
    atomic_op_functor = amo_op;
    local_accessor = none;
  }

  unfoldable pub set_paddr : Request q → ℕ → Request q
  set_paddr r paddr = record r { paddr = paddr; private_flags = mark_valid r valid_paddr }

  -- `Request(Addr, unsigned, Flags, RequestorID)`.
  unfoldable pub physical_request : ℕ → ℕ → ℕ → (word 64).Flags → ℕ → Request q
  physical_request now paddr size flags id = record empty_request {
    paddr = paddr;
    size = size;
    requestor_id = id;
    time = now;
    flags = (word 64).set (word 64).cleared ((word 64).bits flags);
    private_flags = (word 16).set (word 16).cleared (either_of valid_paddr valid_size);
    byte_enable = replicate size true;
  }

  -- `Request(Addr, unsigned, Flags, RequestorID, Addr, ContextID, AtomicOpFunctorPtr)`.
  unfoldable pub virtual_request :
      ℕ → ℕ → ℕ → (word 64).Flags → ℕ → ℕ → ContextId → Option AtomicOpFunctor → Request q
  virtual_request now vaddr size flags id pc cid atomic_op =
      record (set_context (set_virt empty_request now vaddr size flags id pc atomic_op) cid) {
        byte_enable = replicate size true;
      }

  -- `Request(const Request &)`: the members that it does not name get their default values.
  unfoldable pub copied : Request q → Request q
  copied other = record empty_request {
    paddr = other.paddr;
    size = other.size;
    byte_enable = other.byte_enable;
    requestor_id = other.requestor_id;
    flags = other.flags;
    cache_coherence_flags = other.cache_coherence_flags;
    private_flags = other.private_flags;
    time = other.time;
    task_id = other.task_id;
    vaddr = other.vaddr;
    extra_data = other.extra_data;
    context_id = other.context_id;
    pc = other.pc;
    req_inst_seq_num = other.req_inst_seq_num;
    local_accessor = other.local_accessor;
    translate_delta = other.translate_delta;
    access_delta = other.access_delta;
    depth = other.depth;
    atomic_op_functor = elim other.atomic_op_functor [ none ↦ none | some op ↦ some (clone op) ];
  }

  -- `list.begin() + n` to the end, and the elements before it; a step past the end is outside the
  -- vector.
  unfoldable pub from_begin : List Bool → ℕ → Outcome (List Bool × List Bool)
  from_begin bytes zero = ok ([], bytes)
  from_begin [] (suc n) = abort
  from_begin (b ∷ bytes) (suc n) = do (before, rest) ← from_begin bytes n; ok (b ∷ before, rest)

  unfoldable pub split_on_vaddr : Request q → ℕ → Outcome (Request q × Request q)
  split_on_vaddr r split_addr = do
    assert (is_valid r valid_vaddr)
    assert (not (is_valid r valid_paddr))
    assert (ltb r.vaddr split_addr && ltb split_addr ((r.vaddr + r.size) % 2 ^ 64))
    let size1 = (split_addr - r.vaddr) % 2 ^ 32
    (first, second) ← from_begin r.byte_enable size1
    ok (
      record (copied r) { size = size1; byte_enable = first },
      record (copied r) {
        vaddr = split_addr;
        size = (r.size + 2 ^ 32 - size1) % 2 ^ 32;
        byte_enable = second;
      },
    )
