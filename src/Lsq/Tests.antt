-- ===== src/Lsq/Tests.antt =====
-- Runs of src/cpu/o3/lsq.cc on small platforms, and instances of its theorems.
use patch_tectreee.Base.{ℕ, ◌≡◌, refl, true, false, ◌&&◌, leb, some, List, [], ◌∷◌, ◌++◌, arith}
use patch_tectreee.Base.Outcome.{ok, abort}
use patch_tectreee.Request.Masks.{nonzero}
use patch_tectreee.Request.State.{Request, empty_request}
use patch_tectreee.Request.Access.{set_extra_data, get_extra_data, extra_data_valid}
use patch_tectreee.Request.Query.{
  is_tlbi_ext_sync, create_mem_management, is_htm_abort, is_htm_cancel, is_htm_cmd, is_htm_commit,
  is_htm_start, is_mem_mgmt, is_tlbi, is_tlbi_cmd, is_tlbi_ext_sync_comp, is_tlbi_sync,
}
use patch_tectreee.Request.Plain.{plain}
use patch_tectreee.Lsq.State.{LsqRequest, lsq_request, is_released, is_any_outstanding_request}
use patch_tectreee.Lsq.Release.{packet_replied, destroy}
use patch_tectreee.Lsq.Queue.{
  SmtQueuePolicy, Lsq, LsqParams, lsq, tick, max_lsq_allocation, cache_port_busy,
  cache_port_available, Shared, with_shared, set_cache_blocked,
}
use patch_tectreee.Lsq.Threads.{
  all_active, is_empty, is_drained, sq_full, recv_req_retry, unit_of, on_active, on_sender,
}
use patch_tectreee.Lsq.Plain.{lsq_plain, queue_plain, load, fresh, queue}
use patch_tectreee.Lsq.Full
use patch_tectreee.Lsq.Ports
use patch_tectreee.Lsq.Retry
use patch_tectreee.Lsq.Sync
use patch_tectreee.Lsq.Completions
use patch_tectreee.Lsq.Stale.{
  Snoop, Surroundings, recv_timing_snoop_req, recv_sync, begin_wait, check_stale_translations,
  any_blocking, recv_timing_resp, check_if_waiting, completion,
}
use patch_tectreee.Request.Constants.{tlbi_ext_sync, tlbi_ext_sync_comp}

-- Under the dynamic policy no answer comes within a hundred calls.
sq_full-dynamic_example : sq_full queue_plain 100 (queue SmtQueuePolicy.dynamic) ≡ abort
sq_full-dynamic_example =
    Full.sq_full-dynamic queue_plain 100 (queue SmtQueuePolicy.dynamic) 1 (0 ∷ []) refl refl

sq_full-all_example :
    sq_full queue_plain 7 (queue SmtQueuePolicy.partitioned)
    ≡ all_active queue_plain queue_plain.sq_full (queue SmtQueuePolicy.partitioned) (1 ∷ 0 ∷ [])
sq_full-all_example = Full.sq_full-all queue_plain 6 (queue SmtQueuePolicy.partitioned) refl

is_empty-is_drained_example :
    is_empty queue_plain (queue SmtQueuePolicy.threshold)
    ≡ is_drained queue_plain (queue SmtQueuePolicy.threshold)
is_empty-is_drained_example =
    Full.is_empty-is_drained queue_plain (queue SmtQueuePolicy.threshold)
      (omega arith, (omega arith, tt))

tick-accesses_example :
    Ports.is_ok queue_plain (
      Ports.accesses queue_plain
        (true ∷ false ∷ true ∷ [])
        (tick queue_plain (queue SmtQueuePolicy.dynamic)))
    ≡ (leb (Ports.count queue_plain true (true ∷ false ∷ true ∷ [])) 2
        && leb (Ports.count queue_plain false (true ∷ false ∷ true ∷ [])) 1)
tick-accesses_example =
    Ports.tick-accesses queue_plain (true ∷ false ∷ true ∷ []) (queue SmtQueuePolicy.dynamic)

abbrev params : LsqParams
params = record {
  cache_store_ports = 1;
  cache_load_ports = 2;
  smt_lsq_policy = SmtQueuePolicy.threshold;
  lq_entries = 8;
  sq_entries = 4;
  num_threads = 2;
  smt_lsq_threshold = 9;
}

abbrev queue_built : Lsq queue_plain
queue_built = record {
  iew_stage = 0;
  cache_blocked = false;
  cache_store_ports = 1;
  used_store_ports = 0;
  cache_load_ports = 2;
  used_load_ports = 0;
  waiting_for_stale_translation = false;
  stale_translation_wait_txn_id = 0;
  lsq_policy = SmtQueuePolicy.threshold;
  active_threads = 0 ∷ 1 ∷ [];
  lq_entries = 8;
  sq_entries = 4;
  max_lq_entries = 9;
  max_sq_entries = 9;
  thread = 0 ∷ 0 ∷ [];
  num_threads = 2;
}

abbrev port_run : List Ports.PortEvent
port_run =
    Ports.PortEvent.access true
    ∷ Ports.PortEvent.access true
    ∷ Ports.PortEvent.begin
    ∷ Ports.PortEvent.access true
    ∷ []

abbrev after_ports : Lsq queue_plain
after_ports = record queue_built { iew_stage = 1; used_load_ports = 1 }

lsq-built : lsq queue_plain 0 params (0 ∷ 1 ∷ []) ≡ ok queue_built
unfolding lsq max_lsq_allocation
lsq-built = refl

port_events-after : Ports.port_events queue_plain port_run queue_built ≡ ok after_ports
unfolding Ports.port_events Ports.port_event tick cache_port_busy cache_port_available
port_events-after = refl

port_events-IsBounded_example : Ports.IsBounded queue_plain after_ports
port_events-IsBounded_example =
    Ports.port_events-IsBounded queue_plain 0 params (0 ∷ 1 ∷ []) port_run queue_built after_ports
      lsq-built port_events-after

recv_req_retry-IsCalled_example :
    (units : List ℕ) × (last : Shared ℕ) × (recv_req_retry queue_plain
        (queue SmtQueuePolicy.dynamic)
      ≡ ok
          (with_shared queue_plain (record (queue SmtQueuePolicy.dynamic) { thread = units }) last))
    × Retry.IsCalled queue_plain queue_plain.recv_retry
        (1 ∷ 0 ∷ [])
        (0 ∷ 5 ∷ [])
        units
        (record { iew_stage = 1; cache_blocked = false; used_store_ports = 0; used_load_ports = 1 })
        last
recv_req_retry-IsCalled_example =
    Retry.recv_req_retry-IsCalled queue_plain (queue SmtQueuePolicy.dynamic) (refl, (refl, tt))
      (omega arith, (omega arith, tt))

-- The unit of thread 1 finds the cache blocked again, and it stays so.
retried :
    recv_req_retry queue_plain (queue SmtQueuePolicy.dynamic)
    ≡ ok (record (queue SmtQueuePolicy.dynamic) {
      iew_stage = 1;
      cache_blocked = true;
      thread = 10 ∷ 15 ∷ [];
    })
unfolding recv_req_retry on_active on_sender unit_of set_cache_blocked
retried = refl

-- A synchronisation begins while a unit has stale translations; the unit gets rid of them, and a
-- response lets the queue look again.
abbrev surroundings : Surroundings
surroundings = record { now = 3; id = 5; accepts = true }

abbrev sync_snoop : Snoop plain queue_plain
sync_snoop = record {
  packet = false;
  req = some (set_extra_data plain (record (empty_request plain) { flags = tlbi_ext_sync }) 77);
}

abbrev answered_load : LsqRequest plain lsq_plain
answered_load = record fresh { num_outstanding_packets = 1 }

abbrev sync_run : List (Completions.SyncEvent plain lsq_plain queue_plain)
sync_run =
    Completions.SyncEvent.snooped surroundings sync_snoop
    ∷ Completions.SyncEvent.worked (0 ∷ 0 ∷ [])
    ∷ Completions.SyncEvent.responded surroundings false (some (answered_load, load))
    ∷ []

abbrev after_sync : Lsq queue_plain
after_sync = record (queue SmtQueuePolicy.dynamic) { thread = 0 ∷ 0 ∷ [] }

abbrev done : Request plain
done =
    set_extra_data plain
      (record (empty_request plain) { flags = tlbi_ext_sync_comp; requestor_id = 5; time = 3 }) 77

after_sync-run :
    Completions.sync_events plain lsq_plain queue_plain
      (λ c. c)
      (λ p r n. (r, n))
      sync_run
      (queue SmtQueuePolicy.dynamic)
    ≡ ok (after_sync, done ∷ [])
unfolding Completions.sync_events Completions.sync_event recv_timing_snoop_req recv_sync
    is_tlbi_ext_sync nonzero set_extra_data begin_wait get_extra_data extra_data_valid
    check_stale_translations any_blocking recv_timing_resp unit_of packet_replied is_released
    lsq_request check_if_waiting completion destroy is_any_outstanding_request create_mem_management
    is_htm_abort is_htm_cancel is_htm_cmd is_htm_commit is_htm_start is_mem_mgmt is_tlbi is_tlbi_cmd
    is_tlbi_ext_sync_comp is_tlbi_sync
after_sync-run = refl

sync_events-pending_example :
    Sync.extra_datas plain queue_plain (done ∷ []) ++ Sync.pending plain queue_plain after_sync
    ≡ Sync.pending plain queue_plain (queue SmtQueuePolicy.dynamic)
      ++ Completions.all_begun plain lsq_plain queue_plain (λ c. c) (λ p r n. (r, n)) sync_run
sync_events-pending_example =
    Completions.sync_events-pending plain lsq_plain queue_plain (λ c. c) (λ p r n. (r, n)) sync_run
      (queue SmtQueuePolicy.dynamic) after_sync (done ∷ []) after_sync-run
