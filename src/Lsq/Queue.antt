-- ===== src/Lsq/Queue.antt =====
-- The class `LSQ` of src/cpu/o3/lsq.hh and src/cpu/o3/lsq.cc: its state, its constructor and the
-- ports to the data cache.
use patch_tectreee.Base.{
  ℕ, zero, suc, ◌+◌, ◌/◌, Bool, true, false, not, ◌&&◌, ltb, leb, ◌==◌, if◌then◌else◌, List, [],
  ◌∷◌, map,
}
use patch_tectreee.Base.Outcome.{Outcome, ok, ◌>>◌, assert}

-- `SMTQueuePolicy`; `other` is a value that the constructor panics at.
pub data SmtQueuePolicy : Type 0 where
  dynamic partitioned threshold other : SmtQueuePolicy

abbrev pub is_dynamic : SmtQueuePolicy → Bool
is_dynamic SmtQueuePolicy.dynamic = true
is_dynamic _ = false

-- The members of the queue that a unit that sends packets reads and writes through its pointer to the
-- queue, and the stage that it tells of its work.
pub record Shared (Iew : Type 0) : Type 0 where
  pub iew_stage : Iew
  pub cache_blocked : Bool
  pub used_store_ports : ℕ
  pub used_load_ports : ℕ

-- What the queue calls and is not in the repository: the `LSQUnit` of a thread, the stage `IEW`, and
-- `MaxThreads`. `Packet` is what snoops carry, `DynInst` an instruction, and a number in a call of a
-- unit is a sequence number.
pub record QueuePlatform : Type 1 where
  pub LsqUnit : Type 0
  pub Iew : Type 0
  pub Packet : Type 0
  pub DynInst : Type 0
  pub max_threads : ℕ
  pub init : ℕ → ℕ → ℕ → LsqUnit
  pub cache_unblocked : Iew → Iew
  pub thread_number : DynInst → ℕ
  pub lq_full : LsqUnit → Bool
  pub sq_full : LsqUnit → Bool
  pub lq_empty : LsqUnit → Bool
  pub sq_empty : LsqUnit → Bool
  pub is_stalled : LsqUnit → Bool
  pub violation : LsqUnit → Bool
  pub has_stores_to_wb : LsqUnit → Bool
  pub will_wb : LsqUnit → Bool
  pub get_count : LsqUnit → ℕ
  pub num_loads : LsqUnit → ℕ
  pub num_stores : LsqUnit → ℕ
  pub num_free_load_entries : LsqUnit → ℕ
  pub num_free_store_entries : LsqUnit → ℕ
  pub insert_load : DynInst → LsqUnit → LsqUnit
  pub insert_store : DynInst → LsqUnit → LsqUnit
  pub commit_loads : ℕ → LsqUnit → LsqUnit
  pub commit_stores : ℕ → LsqUnit → LsqUnit
  pub squash : ℕ → LsqUnit → LsqUnit
  pub writeback_stores : Shared Iew → LsqUnit → Shared Iew × LsqUnit
  pub recv_retry : Shared Iew → LsqUnit → Shared Iew × LsqUnit
  pub take_over_from : LsqUnit → LsqUnit
  pub check_snoop : Packet → LsqUnit → LsqUnit
  pub start_stale_translation_flush : LsqUnit → LsqUnit
  pub check_stale_translations : LsqUnit → Bool
  pub is_invalidate : Packet → Bool

-- `maxLSQAllocation`.
unfoldable pub max_lsq_allocation : SmtQueuePolicy → ℕ → ℕ → ℕ → ℕ
max_lsq_allocation SmtQueuePolicy.dynamic entries num_threads smt_threshold = entries
max_lsq_allocation SmtQueuePolicy.partitioned entries num_threads smt_threshold =
    entries / num_threads
max_lsq_allocation SmtQueuePolicy.threshold entries num_threads smt_threshold = smt_threshold
max_lsq_allocation SmtQueuePolicy.other entries num_threads smt_threshold = 0

-- The parameters of the constructor.
pub record LsqParams : Type 0 where
  pub cache_store_ports : ℕ
  pub cache_load_ports : ℕ
  pub smt_lsq_policy : SmtQueuePolicy
  pub lq_entries : ℕ
  pub sq_entries : ℕ
  pub num_threads : ℕ
  pub smt_lsq_threshold : ℕ

module _ (k : QueuePlatform) where
  open k use {LsqUnit, Iew, init, max_threads, cache_unblocked, take_over_from}

  -- The queue, and the stage that it calls back.
  pub record Lsq : Type 0 where
    pub iew_stage : Iew
    pub cache_blocked : Bool
    pub cache_store_ports : ℕ
    pub used_store_ports : ℕ
    pub cache_load_ports : ℕ
    pub used_load_ports : ℕ
    pub waiting_for_stale_translation : Bool
    pub stale_translation_wait_txn_id : ℕ
    pub lsq_policy : SmtQueuePolicy
    pub active_threads : List ℕ
    pub lq_entries : ℕ
    pub sq_entries : ℕ
    pub max_lq_entries : ℕ
    pub max_sq_entries : ℕ
    pub thread : List LsqUnit
    pub num_threads : ℕ

  -- What a unit sees of the queue, and the queue after a unit changed it.
  abbrev pub shared_of : Lsq → Shared Iew
  shared_of s = record {
    iew_stage = s.iew_stage;
    cache_blocked = s.cache_blocked;
    used_store_ports = s.used_store_ports;
    used_load_ports = s.used_load_ports;
  }

  abbrev pub with_shared : Lsq → Shared Iew → Lsq
  with_shared s w = record s {
    iew_stage = w.iew_stage;
    cache_blocked = w.cache_blocked;
    used_store_ports = w.used_store_ports;
    used_load_ports = w.used_load_ports;
  }

  -- The units of the threads from `tid` on, `n` of them.
  abbrev init_units : ℕ → ℕ → ℕ → ℕ → List LsqUnit
  init_units zero tid lq sq = []
  init_units (suc n) tid lq sq = init lq sq tid ∷ init_units n (suc tid) lq sq

  -- The checks of the constructor on its policy.
  abbrev is_valid_policy : LsqParams → Bool
  is_valid_policy p = elim p.smt_lsq_policy [
    | SmtQueuePolicy.dynamic ↦ true
    | SmtQueuePolicy.partitioned ↦ true
    | SmtQueuePolicy.threshold ↦
        ltb p.lq_entries p.smt_lsq_threshold && ltb p.sq_entries p.smt_lsq_threshold
    | SmtQueuePolicy.other ↦ false
  ]

  -- The constructor, and `setActiveThreads`.
  unfoldable pub lsq : Iew → LsqParams → List ℕ → Outcome Lsq
  lsq iew p active = do
    assert (ltb 0 p.num_threads && leb p.num_threads max_threads)
    assert (is_valid_policy p)
    let max_lq = max_lsq_allocation p.smt_lsq_policy p.lq_entries p.num_threads p.smt_lsq_threshold
    let max_sq = max_lsq_allocation p.smt_lsq_policy p.sq_entries p.num_threads p.smt_lsq_threshold
    ok (record {
      iew_stage = iew;
      cache_blocked = false;
      cache_store_ports = p.cache_store_ports;
      used_store_ports = 0;
      cache_load_ports = p.cache_load_ports;
      used_load_ports = 0;
      waiting_for_stale_translation = false;
      stale_translation_wait_txn_id = 0;
      lsq_policy = p.smt_lsq_policy;
      active_threads = active;
      lq_entries = p.lq_entries;
      sq_entries = p.sq_entries;
      max_lq_entries = max_lq;
      max_sq_entries = max_sq;
      thread = init_units p.num_threads 0 max_lq max_sq;
      num_threads = p.num_threads;
    })

  unfoldable pub take_over : Lsq → Lsq
  take_over s = record s {
    used_store_ports = 0;
    cache_blocked = false;
    thread = map take_over_from s.thread;
  }

  unfoldable pub tick : Lsq → Lsq
  tick s = record s {
    iew_stage =
        if (s.used_load_ports == s.cache_load_ports) && not s.cache_blocked
        then cache_unblocked s.iew_stage
        else s.iew_stage;
    used_load_ports = 0;
    used_store_ports = 0;
  }

  unfoldable pub set_cache_blocked : Lsq → Bool → Lsq
  set_cache_blocked s v = record s { cache_blocked = v }

  unfoldable pub cache_port_available : Lsq → Bool → Bool
  cache_port_available s is_load =
      if is_load
      then ltb s.used_load_ports s.cache_load_ports
      else ltb s.used_store_ports s.cache_store_ports

  unfoldable pub cache_port_busy : Lsq → Bool → Outcome Lsq
  cache_port_busy s is_load = do
    assert (cache_port_available s is_load)
    ok (
        if is_load
        then record s { used_load_ports = s.used_load_ports + 1 }
        else record s { used_store_ports = s.used_store_ports + 1 })
