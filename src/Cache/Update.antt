-- ===== src/Cache/Update.antt =====
-- The operations that change the cache: src/mem/ruby/structures/CacheMemory.cc.
-- `now` is `curTick()`.
use patch_tectreee.Base.{
  ℕ, Bool, true, false, not, ◌==◌, Option, none, some, List, [], ◌∷◌, if◌then◌else◌, get_elem?, suc,
}
use patch_tectreee.Base.Outcome.{Outcome, ok, abort, ◌>>=◌, ◌>>◌, assert, deref}
use patch_tectreee.Ruby.{AccessPermission, is_not_present, RubyRequestType}
use patch_tectreee.Cache.Platform.{Platform, ReplaceableEntry}
use patch_tectreee.Cache.State.{Entry, CacheMemory, get_cell, set_cell}
use patch_tectreee.Cache.Access.{
  assert_line, set_of, address_to_cache_set, slot, lookup, is_tag_present, cache_avail,
}

module _ (p : Platform) where
  open p use {
    Block, Policy, make_line_address, touch, touch_occupancy, reset, invalidate, get_victim, lock,
    unlock, holds,
  }

  -- `m_tag_index[address] = way`, and `m_tag_index.erase(address)`.
  abbrev pub put_tag : (ℕ → Option ℕ) → ℕ → Option ℕ → ℕ → Option ℕ
  put_tag index address way a = if address == a then way else index a

  -- An entry written through a pointer to it, in the slot that holds it.
  abbrev pub write : CacheMemory p → ℕ → ℕ → Option (Entry p) → CacheMemory p
  write c s w entry = record c { cache = set_cell c.cache s w entry }

  -- The search of `allocate` for the first open slot, from way `i` on.
  unfoldable pub first_open : ℕ → List (Option (Entry p)) → Option ℕ
  first_open i [] = none
  first_open i (none ∷ row) = some i
  first_open i (some entry ∷ row) =
      if is_not_present entry.permission then some i else first_open (suc i) row

  -- `entry` as `allocate` leaves it in a slot.
  abbrev pub placed : Entry p → ℕ → ℕ → ℕ → ℕ → ℕ → Entry p
  placed entry address cache_set way handle now = record entry {
    address = address;
    permission = AccessPermission.invalid;
    locked = none;
    set = cache_set;
    way = way;
    replacement_data = handle;
    last_access = now;
  }

  unfoldable pub allocate : CacheMemory p → ℕ → ℕ → Entry p → Outcome (Entry p × CacheMemory p)
  allocate c now address entry = do
    assert_line p address
    present ← is_tag_present p c address
    assert (not present)
    available ← cache_avail p c address
    assert available
    cache_set ← address_to_cache_set p c address
    row ← deref (get_elem? c.cache cache_set)
    way ← deref (first_open 0 row)
    handle ← deref (get_cell c.replacement_data cache_set way)
    let e = placed entry address cache_set way handle now
    ok (
      e,
      record (write c cache_set way (some e)) {
        tag_index = put_tag c.tag_index address (some way);
        policy = reset handle c.policy;
      },
    )

  unfoldable pub deallocate : CacheMemory p → ℕ → Outcome (CacheMemory p)
  deallocate c address = do
    pointer ← lookup p c address
    entry ← deref pointer
    _ ← slot p c entry.set entry.way
    ok (record (write c entry.set entry.way none) {
      tag_index = put_tag c.tag_index address none;
      policy = invalidate entry.replacement_data c.policy;
    })

  -- The candidates for a victim; the policy reads each, so none may be null.
  unfoldable pub candidates : List (Option (Entry p)) → Outcome (List ReplaceableEntry)
  candidates [] = ok []
  candidates (none ∷ row) = abort
  candidates (some e ∷ row) = do
    rest ← candidates row
    ok (record { set = e.set; way = e.way; replacement_data = e.replacement_data } ∷ rest)

  unfoldable pub cache_probe : CacheMemory p → ℕ → Outcome ℕ
  cache_probe c address = do
    assert_line p address
    available ← cache_avail p c address
    assert (not available)
    cache_set ← address_to_cache_set p c address
    row ← deref (get_elem? c.cache cache_set)
    those ← candidates row
    let victim = get_victim c.policy those
    pointer ← slot p c cache_set victim.way
    entry ← deref pointer
    ok entry.address

  -- A change of `entry` through the pointer that `lookup` gives at `address`: it is written to the
  -- slot that `lookup` read.
  abbrev pub modify : CacheMemory p → ℕ → Entry p → (Entry p → Entry p) → CacheMemory p
  modify c address entry f = elim (c.tag_index address) [
    | none ↦ c
    | some way ↦ write c (set_of p c address) way (some (f entry))
  ]

  -- `setMRU(Addr)`.
  unfoldable pub set_mru : CacheMemory p → ℕ → ℕ → Outcome (CacheMemory p)
  set_mru c now address = do
    pointer ← lookup p c (make_line_address address)
    ok (elim pointer [
      | none ↦ c
      | some entry ↦
          record (modify c (make_line_address address) entry
            (λ e. record e { last_access = now })) {
              policy = touch entry.replacement_data c.policy;
            }
    ])

  -- `setMRU(Addr, int)`: the policy is told the occupancy if it is WeightedLRU.
  unfoldable pub set_mru_occupancy : CacheMemory p → ℕ → ℕ → ℕ → Outcome (CacheMemory p)
  set_mru_occupancy c now address occupancy = do
    pointer ← lookup p c (make_line_address address)
    ok (elim pointer [
      | none ↦ c
      | some entry ↦
          record (modify c (make_line_address address) entry
            (λ e. record e { last_access = now })) {
              policy =
                  if c.weighted_lru
                  then touch_occupancy entry.replacement_data occupancy c.policy
                  else touch entry.replacement_data c.policy;
            }
    ])

  unfoldable pub set_locked : CacheMemory p → ℕ → ℕ → Outcome (CacheMemory p)
  set_locked c address context = do
    pointer ← lookup p c address
    entry ← deref pointer
    ok (modify c address entry (λ e. record e { locked = lock context e.locked }))

  unfoldable pub clear_locked : CacheMemory p → ℕ → Outcome (CacheMemory p)
  clear_locked c address = do
    pointer ← lookup p c address
    entry ← deref pointer
    ok (modify c address entry (λ e. record e { locked = unlock e.locked }))

  unfoldable pub is_locked : CacheMemory p → ℕ → ℕ → Outcome Bool
  is_locked c address context = do
    pointer ← lookup p c address
    entry ← deref pointer
    ok (holds entry.locked context)

  abbrev pub may_access : AccessPermission → RubyRequestType → Bool
  may_access AccessPermission.read_write type = true
  may_access AccessPermission.read_only RubyRequestType.ld = true
  may_access AccessPermission.read_only RubyRequestType.ifetch = true
  may_access _ _ = false

  -- `tryCacheAccess`: the result, the data pointer, and the cache after the touch.
  unfoldable pub try_cache_access :
      CacheMemory p → ℕ → ℕ → RubyRequestType → Outcome (Bool × Option Block × CacheMemory p)
  try_cache_access c now address type = do
    pointer ← lookup p c address
    ok (elim pointer [
      | none ↦ (false, none, c)
      | some entry ↦
          let c' = record (modify c address entry (λ e. record e { last_access = now })) {
            policy = touch entry.replacement_data c.policy;
          } in
          if may_access entry.permission type
          then (true, some entry.data_blk, c')
          else (false, none, c')
    ])

  unfoldable pub test_cache_access :
      CacheMemory p → ℕ → ℕ → Outcome (Bool × Option Block × CacheMemory p)
  test_cache_access c now address = do
    pointer ← lookup p c address
    ok (elim pointer [
      | none ↦ (false, none, c)
      | some entry ↦ (
        not (is_not_present entry.permission),
        some entry.data_blk,
        record (modify c address entry (λ e. record e { last_access = now })) {
          policy = touch entry.replacement_data c.policy;
        },
      )
    ])

  -- `setMRU(AbstractCacheEntry *)` of the entry in the slot `(s, w)`; the slot may be null.
  unfoldable pub set_mru_entry : CacheMemory p → ℕ → ℕ → ℕ → Outcome (CacheMemory p)
  set_mru_entry c now s w = do
    pointer ← slot p c s w
    entry ← deref pointer
    ok (record (write c s w (some (record entry { last_access = now }))) {
      policy = touch entry.replacement_data c.policy;
    })
