-- ===== src/Cache/Tests.antt =====
-- Runs of the cache of src/mem/ruby/structures/CacheMemory.cc on a small platform, and instances of
-- its theorems: two sets of one way, with 64-byte lines.
use patch_tectreee.Base.{
  ℕ, ◌≡◌, refl, sym, ◌∙◌, ap, subst, ◌⊎◌, ◌↔◌, Bool, true, false, Option, none, some, [], ◌∷◌,
  arith, ◌==◌, if◌then◌else◌, OneOf,
}
use patch_tectreee.Base.Outcome.{ok, abort}
use patch_tectreee.Ruby.{AccessPermission, RubyRequestType}
use patch_tectreee.Cache.Simple.{simple}
use patch_tectreee.Cache.State.{
  get_cell, Entry, CacheMemory, Params, init, built, no_stats, instantiate_row, instantiate_rows,
}
use patch_tectreee.Cache.Access.{
  set_of, lookup, is_tag_present, cache_avail, row_avail, address_to_cache_set, is_block_invalid,
  is_block_not_busy,
}
use patch_tectreee.Cache.Update.{
  allocate, deallocate, first_open, put_tag, set_mru, try_cache_access, set_mru_entry, modify,
}
use patch_tectreee.Cache.Stats.{
  profile_demand_hit, profile_demand_miss, profile_prefetch_hit, profile_prefetch_miss,
}
use patch_tectreee.Cache.Invariant.{IsLine, IsValid, contents}
use patch_tectreee.Cache.Modify.{changed, modify-contents}
use patch_tectreee.Cache.Sweep.{
  TraceRecord, record_cache_contents, record_set, record_sets, htm_abort_transaction,
  htm_commit_transaction, aborted, htm_sets, htm_set,
}
use patch_tectreee.Cache.Init
use patch_tectreee.Cache.Allocate
use patch_tectreee.Cache.Deallocate
use patch_tectreee.Cache.Replace
use patch_tectreee.Cache.Room
use patch_tectreee.Cache.Touch
use patch_tectreee.Cache.Htm
use patch_tectreee.Cache.Recorded

abbrev small : Params
small = record {
  size = 128;
  assoc = 1;
  start_index_bit = 6;
  is_icache = false;
  resource_stalls = false;
  block_size = 0;
  weighted_lru = false;
}

abbrev empty_cache : CacheMemory simple
empty_cache = record {
  params = record small { block_size = 64 };
  cache_num_sets = 2;
  cache_num_set_bits = 1;
  tag_index = λ _. none;
  cache = (none ∷ []) ∷ (none ∷ []) ∷ [];
  replacement_data = (0 ∷ []) ∷ (1 ∷ []) ∷ [];
  policy = (2, []);
  stats = no_stats;
}

init-small : init simple 64 small (0, []) ≡ ok empty_cache
unfolding init built instantiate_row instantiate_rows
init-small = refl

init-IsValid_example :
    (c : CacheMemory simple) × (init simple 64 small (0, []) ≡ ok c)
    × IsValid simple c
    × (c.cache_num_sets ≡ 2)
    × ((a : ℕ) → contents simple c a ≡ none)
init-IsValid_example =
    Init.init-IsValid simple 64 small (0, []) (omega arith) (omega arith) (omega arith)
      (omega arith)

ok-eq : {A : Type 0} (a b : A) → ok a ≡ ok b → a ≡ b
ok-eq a b h = cc

empty_cache-IsValid : IsValid simple empty_cache
empty_cache-IsValid =
    let (c, run, v, n, all) =
      Init.init-IsValid simple 64 small (0, []) (omega arith) (omega arith) (omega arith)
        (omega arith) in
    subst (IsValid simple) (ok-eq c empty_cache (sym run ∙ init-small)) v

abbrev fresh : Entry simple
fresh = record {
  address = 0;
  permission = AccessPermission.not_present;
  locked = some 3;
  set = 0;
  way = 0;
  replacement_data = 0;
  last_access = 0;
  in_htm_read_set = true;
  in_htm_write_set = false;
  num_valid_blocks = 0;
  data_blk = 77;
}

abbrev line_128 : Entry simple
line_128 = record fresh {
  address = 128;
  permission = AccessPermission.invalid;
  locked = none;
  last_access = 5;
}

abbrev one_line : CacheMemory simple
one_line = record empty_cache {
  cache = (some line_128 ∷ []) ∷ (none ∷ []) ∷ [];
  tag_index = put_tag simple empty_cache.tag_index 128 (some 0);
  policy = (2, 0 ∷ []);
}

allocate_128 : allocate simple empty_cache 5 128 fresh ≡ ok (line_128, one_line)
unfolding allocate is_tag_present lookup cache_avail row_avail first_open
allocate_128 = refl

avail_128 : cache_avail simple empty_cache 128 ≡ ok true
unfolding cache_avail row_avail address_to_cache_set
avail_128 = refl

one_line-IsValid : IsValid simple one_line
one_line-IsValid =
    let (e, c, run, v, all, addr, perm, lock) =
      Allocate.allocate-contents simple empty_cache 5 128 fresh empty_cache-IsValid refl refl
        avail_128 in
    subst (IsValid simple)
      (ap (λ (r : Entry simple × CacheMemory simple). r.1)
        (ok-eq (e, c) (line_128, one_line) (sym run ∙ allocate_128)))
      v

full_256 : cache_avail simple one_line 256 ≡ ok false
unfolding cache_avail row_avail address_to_cache_set
full_256 = refl

allocate-contents_example :
    (e : Entry simple) × (c' : CacheMemory simple) × (allocate simple empty_cache 5 128 fresh
      ≡ ok (e, c'))
    × IsValid simple c'
    × ((b : ℕ)
        → contents simple c' b ≡ (if 128 == b then some e else contents simple empty_cache b))
    × (e.address ≡ 128)
    × (e.permission ≡ AccessPermission.invalid)
    × (e.locked ≡ none)
allocate-contents_example =
    Allocate.allocate-contents simple empty_cache 5 128 fresh empty_cache-IsValid refl refl
      avail_128

deallocate-contents_example :
    (c' : CacheMemory simple) × (deallocate simple one_line 128 ≡ ok c')
    × IsValid simple c'
    × ((b : ℕ) → contents simple c' b ≡ (if 128 == b then none else contents simple one_line b))
    × (c'.policy ≡ one_line.policy)
    × ((b : ℕ)
        → IsLine simple b
        → set_of simple one_line 128 ≡ set_of simple one_line b
        → cache_avail simple c' b ≡ ok true)
deallocate-contents_example =
    Deallocate.deallocate-contents simple one_line 128 line_128 one_line-IsValid refl refl

cache_avail-cases_example :
    ((cache_avail simple one_line 256 ≡ ok true)
      × (((e : Entry simple) × (contents simple one_line 256 ≡ some e))
          ⊎ ((w : ℕ) × (get_cell one_line.cache (set_of simple one_line 256) w ≡ some none))))
    ⊎ ((cache_avail simple one_line 256 ≡ ok false)
        × Room.IsFull simple one_line 256
        × (contents simple one_line 256 ≡ none))
cache_avail-cases_example = Room.cache_avail-cases simple one_line 256 one_line-IsValid refl

replace-contents_example :
    (victim : Entry simple) × (e : Entry simple) × (c' : CacheMemory simple) × (Replace.replace
        simple one_line 9 256 fresh
      ≡ ok (e, c'))
    × IsValid simple c'
    × (contents simple one_line victim.address ≡ some victim)
    × (set_of simple one_line victim.address ≡ set_of simple one_line 256)
    × ((b : ℕ)
        → contents simple c' b ≡ (
            if 256 == b
            then some e
            else if victim.address == b
            then none
            else contents simple one_line b))
replace-contents_example =
    Replace.replace-contents simple one_line 9 256 fresh one_line-IsValid refl full_256

set_mru-contents_example :
    (c' : CacheMemory simple) × (set_mru simple one_line 9 130 ≡ ok c')
    × IsValid simple c'
    × ((b : ℕ) → contents simple c' b ≡ changed simple one_line 128 (Touch.stamp simple 9) b)
    × (c'.policy ≡ (2, 0 ∷ 0 ∷ []))
set_mru-contents_example = Touch.set_mru-contents simple one_line 9 130 one_line-IsValid

-- The entry of the first slot is invalid and not busy; the second slot is null.
block_128 :
    (is_block_invalid simple one_line 0 0 ≡ ok true)
    × (is_block_not_busy simple one_line 0 0 ≡ ok true)
    × (is_block_invalid simple one_line 1 0 ≡ abort)
unfolding is_block_invalid is_block_not_busy
block_128 = (refl, refl, refl)

touched_128 :
    set_mru_entry simple one_line 9 0 0
    ≡ ok (record one_line {
      cache = (some (record line_128 { last_access = 9 }) ∷ []) ∷ (none ∷ []) ∷ [];
      policy = simple.touch line_128.replacement_data one_line.policy;
    })
unfolding set_mru_entry
touched_128 = refl

profiled :
    (profile_demand_miss simple (profile_demand_hit simple one_line)).stats
    ≡ record no_stats { demand_hits = 1; demand_misses = 1 }
unfolding profile_demand_hit profile_demand_miss
profiled = refl

prefetches_profiled :
    (profile_prefetch_miss simple (profile_prefetch_hit simple one_line)).stats
    ≡ record no_stats { prefetch_hits = 1; prefetch_misses = 1 }
unfolding profile_prefetch_hit profile_prefetch_miss
prefetches_profiled = refl

abbrev trace_128 : TraceRecord simple
trace_128 = record { address = 128; type = RubyRequestType.st; time = 5; block = line_128.data_blk }

-- The cache of one line with that line writable, and the record of it.
abbrev granted : Entry simple → Entry simple
granted e = record e { permission = AccessPermission.read_write }

abbrev writable : CacheMemory simple
writable = modify simple one_line 128 line_128 granted

writable-IsValid : IsValid simple writable
writable-IsValid =
    let (v, all) =
      modify-contents simple one_line 128 line_128 granted one_line-IsValid refl
        (record { same_address = refl; same_set = refl; same_way = refl; still_present = refl }) in
    v

try_cache_access-contents_example :
    (allowed : Bool) × (data_ptr : Option ℕ) × (c' : CacheMemory simple) × (try_cache_access simple
        writable 9 128 RubyRequestType.ld
      ≡ ok (allowed, data_ptr, c'))
    × IsValid simple c'
    × ((b : ℕ) → contents simple c' b ≡ changed simple writable 128 (Touch.stamp simple 9) b)
    × (c'.policy ≡ (2, 0 ∷ 0 ∷ []))
    × ((allowed ≡ true) ↔ (
        (e : Entry simple) × (contents simple writable 128 ≡ some e)
        × Touch.IsAllowed simple e.permission RubyRequestType.ld))
    × (data_ptr ≡ (if allowed then some 77 else none))
try_cache_access-contents_example =
    Touch.try_cache_access-contents simple writable 9 128 RubyRequestType.ld writable-IsValid refl

-- The cache with that line in the write set of a transaction.
abbrev joined : Entry simple → Entry simple
joined e = record e { permission = AccessPermission.read_write; in_htm_write_set = true }

abbrev dirty : CacheMemory simple
dirty = modify simple one_line 128 line_128 joined

dirty-IsValid : IsValid simple dirty
dirty-IsValid =
    let (v, all) =
      modify-contents simple one_line 128 line_128 joined one_line-IsValid refl
        (record { same_address = refl; same_set = refl; same_way = refl; still_present = refl }) in
    v

-- An abort invalidates the line.
aborted_128 :
    contents simple (htm_abort_transaction simple dirty) 128
    ≡ some (aborted simple (joined line_128))
unfolding htm_abort_transaction htm_sets htm_set
aborted_128 = refl

htm_abort_transaction-Ended_example :
    Htm.Ended simple (Htm.rolled_back simple) dirty (htm_abort_transaction simple dirty)
    × ((htm_abort_transaction simple dirty).stats.htm_trans_abort_read_set ≡ 1 ∷ [])
    × ((htm_abort_transaction simple dirty).stats.htm_trans_abort_write_set ≡ 1 ∷ [])
htm_abort_transaction-Ended_example = Htm.htm_abort_transaction-Ended simple dirty dirty-IsValid

htm_commit_transaction-Ended_example :
    Htm.Ended simple (Htm.kept simple) dirty (htm_commit_transaction simple dirty)
    × ((htm_commit_transaction simple dirty).stats.htm_trans_commit_read_set ≡ 1 ∷ [])
    × ((htm_commit_transaction simple dirty).stats.htm_trans_commit_write_set ≡ 1 ∷ [])
htm_commit_transaction-Ended_example = Htm.htm_commit_transaction-Ended simple dirty dirty-IsValid

records_of_writable : record_cache_contents simple writable ≡ trace_128 ∷ []
unfolding record_cache_contents record_sets record_set
records_of_writable = refl

record_cache_contents-contents_example : OneOf trace_128 (record_cache_contents simple writable) ↔ (
    (e : Entry simple) × (contents simple writable e.address ≡ some e)
    × Recorded.IsRecordOf simple writable.is_icache e trace_128)
record_cache_contents-contents_example =
    Recorded.record_cache_contents-contents simple writable trace_128 writable-IsValid
