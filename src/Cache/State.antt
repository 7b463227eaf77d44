-- ===== src/Cache/State.antt =====
-- The state of a cache, and its construction: `CacheMemory::CacheMemory`, `CacheMemory::init` in
-- src/mem/ruby/structures/CacheMemory.cc, the members in src/mem/ruby/structures/CacheMemory.hh.
-- A vector of vectors is a list of lists; the unordered map from tags to ways is a function. A slot
-- owns its entry, so that a pointer to an entry is its value and the slot that holds it.
use patch_tectreee.Base.{
  ℕ, zero, suc, ◌/◌, Bool, Option, none, List, [], ◌∷◌, ltb, ◌==◌, if◌then◌else◌, get_elem?, set,
  replicate,
}
use patch_tectreee.Base.Outcome.{Outcome, ok, ◌>>◌, assert}
use patch_tectreee.Ruby.{AccessPermission}
use patch_tectreee.Cache.Platform.{Platform}

-- The counters of `CacheMemoryStats` that the operations change. A histogram is the list of its
-- samples, newest first.
pub record Stats : Type 0 where
  pub data_array_reads : ℕ
  pub data_array_writes : ℕ
  pub tag_array_reads : ℕ
  pub tag_array_writes : ℕ
  pub tag_array_stalls : ℕ
  pub data_array_stalls : ℕ
  pub atomic_alu_operations : ℕ
  pub atomic_alu_array_stalls : ℕ
  pub htm_trans_commit_read_set : List ℕ
  pub htm_trans_commit_write_set : List ℕ
  pub htm_trans_abort_read_set : List ℕ
  pub htm_trans_abort_write_set : List ℕ
  pub demand_hits : ℕ
  pub demand_misses : ℕ
  pub prefetch_hits : ℕ
  pub prefetch_misses : ℕ

abbrev pub no_stats : Stats
no_stats = record {
  data_array_reads = 0;
  data_array_writes = 0;
  tag_array_reads = 0;
  tag_array_writes = 0;
  tag_array_stalls = 0;
  data_array_stalls = 0;
  atomic_alu_operations = 0;
  atomic_alu_array_stalls = 0;
  htm_trans_commit_read_set = [];
  htm_trans_commit_write_set = [];
  htm_trans_abort_read_set = [];
  htm_trans_abort_write_set = [];
  demand_hits = 0;
  demand_misses = 0;
  prefetch_hits = 0;
  prefetch_misses = 0;
}

-- The element in row `i` and column `j`, and the table with that element replaced.
abbrev pub get_cell {ℓ} : {A : Type ℓ} → List (List A) → ℕ → ℕ → Option A
get_cell [] i j = none
get_cell (r ∷ rs) zero j = get_elem? r j
get_cell (r ∷ rs) (suc i) j = get_cell rs i j

abbrev pub set_cell {ℓ} : {A : Type ℓ} → List (List A) → ℕ → ℕ → A → List (List A)
set_cell [] i j v = []
set_cell (r ∷ rs) zero j v = set r j v ∷ rs
set_cell (r ∷ rs) (suc i) j v = r ∷ set_cell rs i j v

pub record Entry (p : Platform) : Type 0 where
  pub address : ℕ
  pub permission : AccessPermission
  pub locked : Option ℕ
  pub set : ℕ
  pub way : ℕ
  pub replacement_data : ℕ
  pub last_access : ℕ
  pub in_htm_read_set : Bool
  pub in_htm_write_set : Bool
  pub num_valid_blocks : ℕ
  pub data_blk : p.Block

-- The parameters of the constructor.
pub record Params : Type 0 where
  pub size : ℕ
  pub assoc : ℕ
  pub start_index_bit : ℕ
  pub is_icache : Bool
  pub resource_stalls : Bool
  pub block_size : ℕ
  pub weighted_lru : Bool

pub record CacheMemory (p : Platform) : Type 0 where
  pub params : Params
  pub open params use *
  pub cache_num_sets : ℕ
  pub cache_num_set_bits : ℕ
  pub tag_index : ℕ → Option ℕ
  pub cache : List (List (Option (Entry p)))
  pub replacement_data : List (List ℕ)
  pub policy : p.Policy
  pub stats : Stats

module _ (p : Platform) where
  open p use {Policy, instantiate_entry, floor_log2}

  -- One row of `replacement_data`: `instantiateEntry` for each way, in order.
  unfoldable pub instantiate_row : ℕ → Policy → List ℕ × Policy
  instantiate_row zero s = ([], s)
  instantiate_row (suc n) s =
      let (d, s') = instantiate_entry s in let (ds, s'') = instantiate_row n s' in (d ∷ ds, s'')

  unfoldable pub instantiate_rows : ℕ → ℕ → Policy → List (List ℕ) × Policy
  instantiate_rows zero ways s = ([], s)
  instantiate_rows (suc n) ways s =
      let (r, s') = instantiate_row ways s in
      let (rs, s'') = instantiate_rows n ways s' in (r ∷ rs, s'')

  -- The tables of `num_sets` sets.
  unfoldable pub built : ℕ → ℕ → Params → Policy → CacheMemory p
  built block_size num_sets ps s = record {
    params = record ps { block_size = block_size };
    cache_num_sets = num_sets;
    cache_num_set_bits = floor_log2 num_sets;
    tag_index = λ _. none;
    cache = replicate num_sets (replicate ps.assoc none);
    replacement_data = (instantiate_rows num_sets ps.assoc s).0;
    policy = (instantiate_rows num_sets ps.assoc s).1;
    stats = no_stats;
  }

  -- The constructor and `init()`, with `RubySystem::getBlockSizeBytes()` as an argument. A division
  -- by zero stops the program, as a failed assertion does.
  unfoldable pub init : ℕ → Params → Policy → Outcome (CacheMemory p)
  init system_block_size ps s = do
    let block_size = if ps.block_size == 0 then system_block_size else ps.block_size
    assert (ltb 0 ps.assoc)
    assert (ltb 0 block_size)
    let num_sets = ps.size / ps.assoc / block_size
    assert (ltb 1 num_sets)
    assert (ltb 0 (floor_log2 num_sets))
    ok (built block_size num_sets ps s)
