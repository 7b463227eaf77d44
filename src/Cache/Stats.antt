-- ===== src/Cache/Stats.antt =====
-- Bank conflicts and statistics: `recordRequestType`, `checkResourceAvailable` and the profile
-- methods of src/mem/ruby/structures/CacheMemory.cc.
use patch_tectreee.Base.{ℕ, ◌+◌, Bool, true, false, not, if◌then◌else◌}
use patch_tectreee.Base.Outcome.{Outcome, ok, abort, ◌>>=◌}
use patch_tectreee.Cache.Platform.{Platform}
use patch_tectreee.Cache.State.{CacheMemory, Stats}
use patch_tectreee.Cache.Access.{address_to_cache_set}

pub data CacheRequestType : Type 0 where
  data_array_read data_array_write tag_array_read tag_array_write : CacheRequestType
  atomic_alu_operation : CacheRequestType
  other : ℕ → CacheRequestType

pub data CacheResourceType : Type 0 where
  tag_array data_array atomic_alu_array : CacheResourceType
  other : ℕ → CacheResourceType

-- `BankedArray` and `ALUFreeListArray`, which the cache reserves and asks: `tryAccess` may change an
-- array too, as it forgets what has become free.
pub record Arrays : Type 1 where
  pub Bank : Type 0
  pub Alu : Type 0
  pub reserve_bank : ℕ → Bank → Bank
  pub try_bank : ℕ → Bank → Bool × Bank
  pub reserve_alu : ℕ → Alu → Alu
  pub try_alu : ℕ → Alu → Bool × Alu

-- A cache with its three arrays.
pub record Banked (p : Platform) (m : Arrays) : Type 0 where
  pub memory : CacheMemory p
  pub data_array : m.Bank
  pub tag_array : m.Bank
  pub atomic_alu_array : m.Alu

abbrev with_stats : {p : Platform} {m : Arrays} → Banked p m → Stats → Banked p m
with_stats b s = let c = b.memory in record b { memory = record c { stats = s } }

-- The profile methods.
module _ (p : Platform) where
  unfoldable pub profile_demand_hit : CacheMemory p → CacheMemory p
  profile_demand_hit c =
      let s = c.stats in record c { stats = record s { demand_hits = s.demand_hits + 1 } }

  unfoldable pub profile_demand_miss : CacheMemory p → CacheMemory p
  profile_demand_miss c =
      let s = c.stats in record c { stats = record s { demand_misses = s.demand_misses + 1 } }

  unfoldable pub profile_prefetch_hit : CacheMemory p → CacheMemory p
  profile_prefetch_hit c =
      let s = c.stats in record c { stats = record s { prefetch_hits = s.prefetch_hits + 1 } }

  unfoldable pub profile_prefetch_miss : CacheMemory p → CacheMemory p
  profile_prefetch_miss c =
      let s = c.stats in record c { stats = record s { prefetch_misses = s.prefetch_misses + 1 } }

module _ (p : Platform) (m : Arrays) where
  open m use {reserve_bank, try_bank, reserve_alu, try_alu}

  -- The array after the reservation that is made only under `m_resource_stalls`.
  abbrev reserve_data : Banked p m → ℕ → Outcome (Banked p m)
  reserve_data b addr =
      if b.memory.resource_stalls
      then (do
        s ← address_to_cache_set p b.memory addr
        ok (record b { data_array = reserve_bank s b.data_array }))
      else ok b

  abbrev reserve_tag : Banked p m → ℕ → Outcome (Banked p m)
  reserve_tag b addr =
      if b.memory.resource_stalls
      then (do
        s ← address_to_cache_set p b.memory addr
        ok (record b { tag_array = reserve_bank s b.tag_array }))
      else ok b

  unfoldable pub record_request_type : Banked p m → CacheRequestType → ℕ → Outcome (Banked p m)
  record_request_type b CacheRequestType.data_array_read addr = do
    b' ← reserve_data b addr
    let s = b'.memory.stats
    ok (with_stats b' (record s { data_array_reads = s.data_array_reads + 1 }))
  record_request_type b CacheRequestType.data_array_write addr = do
    b' ← reserve_data b addr
    let s = b'.memory.stats
    ok (with_stats b' (record s { data_array_writes = s.data_array_writes + 1 }))
  record_request_type b CacheRequestType.tag_array_read addr = do
    b' ← reserve_tag b addr
    let s = b'.memory.stats
    ok (with_stats b' (record s { tag_array_reads = s.tag_array_reads + 1 }))
  record_request_type b CacheRequestType.tag_array_write addr = do
    b' ← reserve_tag b addr
    let s = b'.memory.stats
    ok (with_stats b' (record s { tag_array_writes = s.tag_array_writes + 1 }))
  record_request_type b CacheRequestType.atomic_alu_operation addr =
      let b' =
        if b.memory.resource_stalls
        then record b { atomic_alu_array = reserve_alu addr b.atomic_alu_array }
        else b in
      let s = b'.memory.stats in
      ok (with_stats b' (record s { atomic_alu_operations = s.atomic_alu_operations + 1 }))
  record_request_type b (CacheRequestType.other n) addr = ok b

  -- The answer, and the cache with the stall that a refusal counts. An unknown resource is a panic.
  unfoldable pub check_resource_available :
      Banked p m → CacheResourceType → ℕ → Outcome (Bool × Banked p m)
  check_resource_available b res addr =
      if not b.memory.resource_stalls then ok (true, b) else elim res [
        | CacheResourceType.tag_array ↦ do
          set ← address_to_cache_set p b.memory addr
          let (free, bank) = try_bank set b.tag_array
          let b' : Banked p m = record b { tag_array = bank }
          let s = b.memory.stats
          ok (
              if free
              then (true, b')
              else (false, with_stats b' (record s { tag_array_stalls = s.tag_array_stalls + 1 })))
        | CacheResourceType.data_array ↦ do
          set ← address_to_cache_set p b.memory addr
          let (free, bank) = try_bank set b.data_array
          let b' : Banked p m = record b { data_array = bank }
          let s = b.memory.stats
          ok (
              if free then (true, b') else (
                false,
                with_stats b' (record s { data_array_stalls = s.data_array_stalls + 1 }),
              ))
        | CacheResourceType.atomic_alu_array ↦
            let (free, alus) = try_alu addr b.atomic_alu_array in
            let b' : Banked p m = record b { atomic_alu_array = alus } in
            let s = b.memory.stats in
            ok (
              if free then (true, b') else (
                false,
                with_stats b'
                    (record s { atomic_alu_array_stalls = s.atomic_alu_array_stalls + 1 }),
              ))
        | CacheResourceType.other n ↦ abort
      ]
