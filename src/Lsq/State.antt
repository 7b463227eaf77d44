-- ===== src/Lsq/State.antt =====
-- A memory operation in the load/store queue: `LSQRequest`, `SingleDataRequest` and
-- `SplitDataRequest` of src/cpu/o3/lsq.hh.
use patch_tectreee.Base.{ℕ, Bool, true, false, not, ◌&&◌, ◌||◌, ltb, Option, none, List, []}
use patch_tectreee.Request.State.{RequestPlatform, Request}
use patch_tectreee.Lsq.Platform.{LsqPlatform}

-- The bits of `flags` that the code names.
pub record Flags : Type 0 where
  pub is_load : Bool
  pub write_back_to_register : Bool
  pub delayed : Bool
  pub is_split : Bool
  pub translation_started : Bool
  pub translation_finished : Bool
  pub sent : Bool
  pub retry : Bool
  pub complete : Bool
  pub translation_squashed : Bool
  pub discarded : Bool
  pub lsq_entry_freed : Bool
  pub writeback_scheduled : Bool
  pub writeback_done : Bool
  pub is_atomic : Bool

abbrev pub no_flags : Flags
no_flags = record {
  is_load = false;
  write_back_to_register = false;
  delayed = false;
  is_split = false;
  translation_started = false;
  translation_finished = false;
  sent = false;
  retry = false;
  complete = false;
  translation_squashed = false;
  discarded = false;
  lsq_entry_freed = false;
  writeback_scheduled = false;
  writeback_done = false;
  is_atomic = false;
}

pub data State : Type 0 where
  not_issued translation request fault partial_fault : State

-- The members of the instruction that the queue reads and writes.
pub record Inst (q : RequestPlatform) (l : LsqPlatform) : Type 0 where
  pub is_squashed : Bool
  pub is_store_conditional : Bool
  pub is_atomic : Bool
  pub is_load : Bool
  pub seq_num : ℕ
  pub requestor_id : ℕ
  pub inst_addr : ℕ
  pub context_id : q.ContextId
  pub mem_barrier_executed_before : Bool
  pub strictly_ordered : Bool
  pub translation_started : Bool
  pub translation_completed : Bool
  pub has_saved_request : Bool
  pub mem_acc_predicate : Bool
  pub phys_eff_addr : ℕ
  pub mem_req_flags : (q.word 64).Flags
  pub inst_fault : Option l.FaultObject
  pub total_insts : ℕ
  pub mem_data : List ℕ
  pub htm_transaction_uid : Option ℕ
  pub request_made : Bool
  pub eff_addr : ℕ
  pub eff_size : ℕ
  pub eff_addr_valid : Bool
  pub executed : Bool

-- A packet of a request: the place of its request, where its bytes stand in the instruction's, a copy
-- of them for a part of a store, and the transaction that it belongs to.
pub record LsqPacket : Type 0 where
  pub is_read : Bool
  pub request : Option ℕ
  pub offset : ℕ
  pub copied_bytes : Option (List ℕ)
  pub htm_transaction : Option ℕ

-- A request of the queue. `num_received_packets`, `main_req` and `main_packet` are those of a
-- `SplitDataRequest`.
pub record LsqRequest (q : RequestPlatform) (l : LsqPlatform) : Type 0 where
  pub flags : Flags
  pub state : State
  pub num_translated_fragments : ℕ
  pub num_in_translation_fragments : ℕ
  pub task_id : ℕ
  pub packets : List LsqPacket
  pub reqs : List (Request q)
  pub faults : List (Option l.FaultObject)
  pub res : Option ℕ
  pub addr : ℕ
  pub size : ℕ
  pub request_flags : (q.word 64).Flags
  pub byte_enable : List Bool
  pub num_outstanding_packets : ℕ
  pub amo_op : Option q.AtomicOpFunctor
  pub has_stale_translation : Bool
  pub num_received_packets : ℕ
  pub main_req : Option (Request q)
  pub main_packet : Option LsqPacket

module _ (q : RequestPlatform) (l : LsqPlatform) where
  open q use {word, AtomicOpFunctor}

  -- The constructor with an address; `split` is that of `SplitDataRequest`, which sets one more flag.
  unfoldable pub lsq_request :
      Inst q l
      → Bool
      → Bool
      → ℕ
      → ℕ
      → (word 64).Flags
      → Option ℕ
      → Option AtomicOpFunctor
      → LsqRequest q l
  lsq_request inst split is_load addr size flags res amo_op = record {
    flags = record no_flags {
      is_load = is_load;
      write_back_to_register = inst.is_store_conditional || inst.is_atomic || inst.is_load;
      is_atomic = inst.is_atomic;
      is_split = split;
    };
    state = State.not_issued;
    num_translated_fragments = 0;
    num_in_translation_fragments = 0;
    task_id = 0;
    packets = [];
    reqs = [];
    faults = [];
    res = res;
    addr = addr;
    size = size;
    request_flags = flags;
    byte_enable = [];
    num_outstanding_packets = 0;
    amo_op = amo_op;
    has_stale_translation = false;
    num_received_packets = 0;
    main_req = none;
    main_packet = none;
  }

  unfoldable pub is_any_outstanding_request : LsqRequest q l → Bool
  is_any_outstanding_request r =
      ltb 0 r.num_in_translation_fragments
      || ltb 0 r.num_outstanding_packets
      || (r.flags.writeback_scheduled && not r.flags.writeback_done)

  unfoldable pub is_released : LsqRequest q l → Bool
  is_released r = r.flags.lsq_entry_freed || r.flags.discarded

  unfoldable pub is_in_translation : LsqRequest q l → Bool
  is_in_translation r = elim r.state [ State.translation ↦ true | _ ↦ false ]

  unfoldable pub is_translation_complete : LsqRequest q l → Bool
  unfolding is_in_translation
  is_translation_complete r = r.flags.translation_started && not (is_in_translation r)

  unfoldable pub is_translation_blocked : LsqRequest q l → Bool
  unfolding is_in_translation
  is_translation_blocked r =
      is_in_translation r && r.flags.translation_started && not r.flags.translation_finished

  unfoldable pub is_partial_fault : LsqRequest q l → Bool
  is_partial_fault r = elim r.state [ State.partial_fault ↦ true | _ ↦ false ]

  unfoldable pub is_mem_access_required : LsqRequest q l → Bool
  unfolding is_partial_fault
  is_mem_access_required r =
      (elim r.state [ State.request ↦ true | _ ↦ false ]) || (is_partial_fault r && r.flags.is_load)

  unfoldable pub set_state_to_fault : LsqRequest q l → LsqRequest q l
  set_state_to_fault r = record r { state = State.fault }

  unfoldable pub packet_sent : LsqRequest q l → LsqRequest q l
  packet_sent r = let f = r.flags in record r { flags = record f { sent = true } }

  unfoldable pub packet_not_sent : LsqRequest q l → LsqRequest q l
  packet_not_sent r =
      let f = r.flags in record r { flags = record f { retry = true; sent = false } }

  unfoldable pub set_complete : LsqRequest q l → LsqRequest q l
  set_complete r = let f = r.flags in record r { flags = record f { complete = true } }

  -- `markAsStaleTranslation` of the single and of the split request.
  unfoldable pub mark_as_stale_translation : LsqRequest q l → LsqRequest q l
  mark_as_stale_translation r = record r {
    has_stale_translation =
        (not r.flags.complete && not r.flags.discarded && r.flags.translation_started)
        || r.has_stale_translation;
  }

  -- `markAsStaleTranslation` of a command, which is not translated.
  unfoldable pub mark_as_stale_direct : LsqRequest q l → LsqRequest q l
  mark_as_stale_direct r = record r { has_stale_translation = false }
