-- ===== src/Lsq/Plain.antt =====
-- Small platforms for the runs of src/cpu/o3/lsq.cc: lines are aligned by division, and a unit of a
-- thread is the number of its stale translations.
use patch_tectreee.Base.{
  ℕ, suc, ◌+◌, ◌*◌, ◌/◌, ◌%◌, refl, Bool, true, false, ltb, ◌||◌, not, List, [], ◌∷◌, none, some,
  ◌==◌, ◌&&◌,
}
use patch_tectreee.Request.Masks.{bit}
use patch_tectreee.Request.State.{Request, virtual_request, set_paddr}
use patch_tectreee.Request.Plain.{plain}
use patch_tectreee.Lsq.Platform.{LsqPlatform}
use patch_tectreee.Lsq.State.{Inst, LsqRequest, LsqPacket, lsq_request}
use patch_tectreee.Lsq.Packets.{UnitPlatform}
use patch_tectreee.Lsq.Queue.{QueuePlatform, SmtQueuePolicy, Lsq}

abbrev is_any : List Bool → Bool
is_any [] = false
is_any (b ∷ bs) = b || is_any bs

abbrev pub lsq_plain : LsqPlatform
lsq_plain = record {
  FaultObject = ℕ;
  addr_block_align = λ a k. a / k * k;
  addr_block_align_pow = λ a n. refl;
  is_any_active_element = is_any;
  is_any_active_element-none = refl;
  is_any_active_element-cons = λ b bs. refl;
  transfer_needs_burst = λ a size k. ltb k (a % k + size);
  transfer_needs_burst_pow = λ a size n. refl;
}

-- A unit that counts the packets it sent; it passes on the responses to requests that are held, and
-- with an even count frees the entry of one whose access it completes and that has no other work.
abbrev pub freed_if : Bool → LsqRequest plain lsq_plain → LsqRequest plain lsq_plain
freed_if even r =
    let busy =
      ltb 0 r.num_in_translation_fragments
      || (r.flags.writeback_scheduled && not r.flags.writeback_done) in
    let f = r.flags in
    record r { flags = record f { lsq_entry_freed = f.lsq_entry_freed || (even && not busy) } }

abbrev pub unit_plain : UnitPlatform plain lsq_plain
unit_plain = record {
  LsqUnit = ℕ;
  try_send_packet = λ is_load p n. (true, suc n);
  complete_data_access = λ p r inst n. ((freed_if (n % 2 == 0) r, inst), n);
  complete_data_access-IsKept = λ p r inst n. record {
    same_packets = refl;
    same_received = refl;
    same_outstanding = refl;
    same_complete = refl;
  };
  is_passed_on = not;
  is_passed_on-held = refl;
}

-- A packet is whether it invalidates.
abbrev pub queue_plain : QueuePlatform
queue_plain = record {
  LsqUnit = ℕ;
  Iew = ℕ;
  Packet = Bool;
  DynInst = ℕ;
  max_threads = 4;
  init = λ lq sq tid. 0;
  cache_unblocked = suc;
  thread_number = λ i. i;
  lq_full = ltb 8;
  sq_full = ltb 4;
  lq_empty = λ n. ltb n 1;
  sq_empty = λ n. ltb n 2;
  is_stalled = ltb 9;
  violation = ltb 10;
  has_stores_to_wb = ltb 0;
  will_wb = ltb 1;
  get_count = λ n. n;
  num_loads = λ n. n;
  num_stores = λ n. n;
  num_free_load_entries = λ n. n;
  num_free_store_entries = λ n. n;
  insert_load = λ i n. suc n;
  insert_store = λ i n. suc n;
  commit_loads = λ i n. n;
  commit_stores = λ i n. n;
  squash = λ i n. 0;
  writeback_stores = λ w n. (w, 0);
  recv_retry = λ w n. (record w { cache_blocked = w.cache_blocked || ltb 4 n }, n + 10);
  take_over_from = λ n. 0;
  check_snoop = λ p n. n;
  start_stale_translation_flush = λ n. n;
  check_stale_translations = ltb 0;
  is_invalidate = λ p. p;
}

-- A load of four bytes at the address 62, and its instruction.
abbrev pub load : Inst plain lsq_plain
load = record {
  is_squashed = false;
  is_store_conditional = false;
  is_atomic = false;
  is_load = true;
  seq_num = 9;
  requestor_id = 3;
  inst_addr = 4096;
  context_id = 0;
  mem_barrier_executed_before = false;
  strictly_ordered = false;
  translation_started = false;
  translation_completed = false;
  has_saved_request = false;
  mem_acc_predicate = true;
  phys_eff_addr = 0;
  mem_req_flags = λ i. false;
  inst_fault = none;
  total_insts = 100;
  mem_data = [];
  htm_transaction_uid = none;
  request_made = false;
  eff_addr = 0;
  eff_size = 0;
  eff_addr_valid = false;
  executed = false;
}

abbrev pub fresh : LsqRequest plain lsq_plain
fresh = lsq_request plain lsq_plain load true true 62 4 (bit 11) none none

-- A request of the load, as two fragments that were sent to translation.
abbrev pub fragment_at : ℕ → Request plain
fragment_at a = set_paddr plain (virtual_request plain 7 a 2 (bit 11) 3 4096 0 none) (4096 + a)

abbrev pub in_translation : LsqRequest plain lsq_plain
in_translation = record fresh {
  num_in_translation_fragments = 2;
  reqs = fragment_at 62 ∷ fragment_at 64 ∷ [];
  faults = none ∷ none ∷ [];
  main_req = some (virtual_request plain 7 62 4 (bit 11) 3 4096 0 none);
}

abbrev packet_at : ℕ → LsqPacket
packet_at i = record {
  is_read = true;
  request = some i;
  offset = 0;
  copied_bytes = none;
  htm_transaction = none;
}

-- A request of the load with two packets, none of which was sent.
abbrev pub packed : LsqRequest plain lsq_plain
packed = record fresh { packets = packet_at 0 ∷ packet_at 1 ∷ [] }

-- A queue of two threads, both active, with two load ports and one store port.
abbrev pub queue : SmtQueuePolicy → Lsq queue_plain
queue policy = record {
  iew_stage = 0;
  cache_blocked = true;
  cache_store_ports = 1;
  used_store_ports = 0;
  cache_load_ports = 2;
  used_load_ports = 1;
  waiting_for_stale_translation = false;
  stale_translation_wait_txn_id = 0;
  lsq_policy = policy;
  active_threads = 1 ∷ 0 ∷ [];
  lq_entries = 8;
  sq_entries = 4;
  max_lq_entries = 8;
  max_sq_entries = 4;
  thread = 0 ∷ 5 ∷ [];
  num_threads = 2;
}
