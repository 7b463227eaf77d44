-- ===== src/Cache/Access.antt =====
-- Finding an address in the cache: src/mem/ruby/structures/CacheMemory.cc.
use patch_tectreee.Base.{
  ℕ, ◌-◌, ◌+◌, ◌*◌, ◌/◌, Bool, true, false, not, ◌||◌, Option, none, some, List, [], ◌∷◌, ltb, ◌==◌,
  if◌then◌else◌, get_elem?,
}
use patch_tectreee.Base.Outcome.{Outcome, ok, ◌>>=◌, ◌>>◌, assert, deref}
use patch_tectreee.Ruby.{AccessPermission, is_not_present}
use patch_tectreee.Cache.Platform.{Platform}
use patch_tectreee.Cache.State.{Entry, CacheMemory, get_cell}

module _ (p : Platform) where
  open p use {make_line_address, bit_select}

  -- `assert(address == makeLineAddress(address))`.
  abbrev pub assert_line : ℕ → Outcome (Unit {0})
  assert_line address = assert (address == make_line_address address)

  -- The set that the index bits of an address name.
  abbrev pub set_of : CacheMemory p → ℕ → ℕ
  set_of c address =
      bit_select address c.start_index_bit (c.start_index_bit + c.cache_num_set_bits - 1)

  unfoldable pub address_to_cache_set : CacheMemory p → ℕ → Outcome ℕ
  address_to_cache_set c address = do assert_line address; ok (set_of c address)

  -- `m_cache[set][way]`.
  abbrev pub slot : CacheMemory p → ℕ → ℕ → Outcome (Option (Entry p))
  slot c s w = deref (get_cell c.cache s w)

  -- `none` is the result -1.
  unfoldable pub find_tag_in_set : CacheMemory p → ℕ → ℕ → Outcome (Option ℕ)
  find_tag_in_set c cache_set tag = do
    assert_line tag
    elim (c.tag_index tag) [
      | none ↦ ok none
      | some way ↦ do
        pointer ← slot c cache_set way
        entry ← deref pointer
        ok (if not (is_not_present entry.permission) then some way else none)
    ]

  unfoldable pub find_tag_in_set_ignore_permissions : CacheMemory p → ℕ → ℕ → Outcome (Option ℕ)
  find_tag_in_set_ignore_permissions c cache_set tag = do assert_line tag; ok (c.tag_index tag)

  -- A null pointer is `none`.
  unfoldable pub lookup : CacheMemory p → ℕ → Outcome (Option (Entry p))
  unfolding address_to_cache_set find_tag_in_set
  lookup c address = do
    assert_line address
    cache_set ← address_to_cache_set c address
    loc ← find_tag_in_set c cache_set address
    elim loc [ none ↦ ok none | some way ↦ slot c cache_set way ]

  unfoldable pub is_tag_present : CacheMemory p → ℕ → Outcome Bool
  is_tag_present c address = do
    entry ← lookup c address
    ok (elim entry [ none ↦ false | some _ ↦ true ])

  -- The loop of `cacheAvail` over the ways of a set.
  unfoldable pub row_avail : ℕ → List (Option (Entry p)) → Bool
  row_avail address [] = false
  row_avail address (none ∷ row) = true
  row_avail address (some entry ∷ row) =
      if entry.address == address || is_not_present entry.permission
      then true
      else row_avail address row

  unfoldable pub cache_avail : CacheMemory p → ℕ → Outcome Bool
  cache_avail c address = do
    assert_line address
    cache_set ← address_to_cache_set c address
    row ← deref (get_elem? c.cache cache_set)
    ok (row_avail address row)

  -- `getAddressAtIdx`: 0 for a slot that is empty, invalid or not present.
  abbrev valid_address : Option (Entry p) → ℕ
  valid_address none = 0
  valid_address (some entry) = elim entry.permission [
    | AccessPermission.invalid ↦ 0
    | AccessPermission.not_present ↦ 0
    | _ ↦ entry.address
  ]

  unfoldable pub get_address_at_idx : CacheMemory p → ℕ → Outcome ℕ
  get_address_at_idx c idx = do
    assert (ltb 0 c.assoc)
    let cache_set = idx / c.assoc
    assert (ltb cache_set c.cache_num_sets)
    let way = idx - cache_set * c.assoc
    assert (ltb way c.assoc)
    entry ← slot c cache_set way
    ok (valid_address entry)

  unfoldable pub get_replacement_weight : CacheMemory p → ℕ → ℕ → Outcome ℕ
  get_replacement_weight c cache_set loc = do
    assert (ltb cache_set c.cache_num_sets)
    assert (ltb loc c.assoc)
    entry ← slot c cache_set loc
    ok (elim entry [ none ↦ 0 | some e ↦ e.num_valid_blocks ])

  unfoldable pub is_block_invalid : CacheMemory p → ℕ → ℕ → Outcome Bool
  is_block_invalid c cache_set loc = do
    pointer ← slot c cache_set loc
    entry ← deref pointer
    ok (elim entry.permission [ AccessPermission.invalid ↦ true | _ ↦ false ])

  unfoldable pub is_block_not_busy : CacheMemory p → ℕ → ℕ → Outcome Bool
  is_block_not_busy c cache_set loc = do
    pointer ← slot c cache_set loc
    entry ← deref pointer
    ok (elim entry.permission [ AccessPermission.busy ↦ false | _ ↦ true ])
