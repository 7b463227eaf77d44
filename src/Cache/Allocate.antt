-- ===== src/Cache/Allocate.antt =====
-- `CacheMemory::allocate` of src/mem/ruby/structures/CacheMemory.cc.
use patch_tectreee.Base.{
  ℕ, ◌<◌, ◌≡◌, refl, ap, ◌∙◌, true, ◌==◌, Option, none, some, arith, get_elem?, List, length,
  ==_refl, if◌then◌else◌,
}
use patch_tectreee.Base.Outcome.{ok}
use patch_tectreee.Ruby.{AccessPermission}
use patch_tectreee.Cache.Platform.{Platform}
use patch_tectreee.Cache.State.{Entry, CacheMemory, get_cell}
use patch_tectreee.Cache.Access.{set_of, row_avail, cache_avail}
use patch_tectreee.Cache.Update.{first_open, placed, allocate}
use patch_tectreee.Cache.Cells.{HasShape-row, HasShape-cell, get_cell-row, lt_get_elem?}
use patch_tectreee.Cache.Room.{row_of_avail}
use patch_tectreee.Cache.Placing.{
  first_open-some, first_open-row_avail, slot_null, no_entry, allocated, contents-allocated,
  allocated-IsValid,
}
use patch_tectreee.Cache.Invariant.{
  IsLine, IsValid, contents, set_of-lt, address_to_cache_set-line, is_tag_present-contents,
}

module _ (p : Platform) where
  open p use {make_line_address, reset}

  -- The search finds a null slot.
  open_slot :
      (c : CacheMemory p) (a : ℕ) (row : List (Option (Entry p)))
      → IsValid p c
      → contents p c a ≡ none
      → get_elem? c.cache (set_of p c a) ≡ some row
      → row_avail p a row ≡ true
      → (w : ℕ) × (first_open p 0 row ≡ some w)
        × (w < length row)
        × (get_cell c.cache (set_of p c a) w ≡ some none)
  open_slot c a row v empty e room =
      let cell = λ (k : ℕ). get_cell-row c.cache (set_of p c a) k row e in
      let (w, found) =
        first_open-row_avail p 0 a row room
          (λ k x q. no_entry p c a (set_of p c a) k x v empty (cell k ∙ q)) in
      let (k, n, o, at, gone) = first_open-some p 0 w row found in
      let same : w ≡ k = omega (arith, n) in
      (
        k,
        found ∙ ap some same,
        lt_get_elem? row k o at,
        slot_null p c (set_of p c a) k o v (cell k ∙ at) gone,
      )

  -- Where `allocate` puts the entry, and what it returns.
  allocate_runs :
      (c : CacheMemory p) (now a : ℕ) (entry : Entry p)
      → IsValid p c
      → IsLine p a
      → contents p c a ≡ none
      → cache_avail p c a ≡ ok true
      → (w : ℕ) × (h : ℕ) × (get_cell c.cache (set_of p c a) w ≡ some none)
        × (allocate p c now a entry
            ≡ ok (
              placed p entry a (set_of p c a) w h now,
              allocated p c a (placed p entry a (set_of p c a) w h now) w,
            ))
  unfolding allocate
  allocate_runs c now a entry v l empty room =
      let (row, e, n) =
        HasShape-row c.cache_num_sets c.assoc c.cache (set_of p c a) v.rows (set_of-lt p c a v) in
      let avail = row_of_avail p c a row l e in
      let (w, found, lt, null) = open_slot c a row v empty e (ground (arith, avail, room)) in
      let (h, handle) =
        HasShape-cell c.cache_num_sets c.assoc c.replacement_data (set_of p c a) w v.handles
          (set_of-lt p c a v) (omega (arith, n, lt)) in
      (
        w,
        h,
        null,
        rw
            (
              l,
              is_tag_present-contents p c a v l,
              empty,
              room,
              address_to_cache_set-line p c a l,
              e,
              found,
              handle,
            )
            refl,
      )

  -- On a well-formed cache, at a line address that the map lacks and for which `cacheAvail` holds,
  -- `allocate` succeeds: the cache stays well-formed, the map gains the entry it returns at that
  -- address and is otherwise unchanged, and the entry has the address, is invalid and unlocked.
  pub allocate-contents :
      (c : CacheMemory p) (now a : ℕ) (entry : Entry p)
      → IsValid p c
      → IsLine p a
      → contents p c a ≡ none
      → cache_avail p c a ≡ ok true
      → (e : Entry p) × (c' : CacheMemory p) × (allocate p c now a entry ≡ ok (e, c'))
        × IsValid p c'
        × ((b : ℕ) → contents p c' b ≡ (if a == b then some e else contents p c b))
        × (e.address ≡ a)
        × (e.permission ≡ AccessPermission.invalid)
        × (e.locked ≡ none)
  allocate-contents c now a entry v l empty room =
      let (w, h, null, runs) = allocate_runs c now a entry v l empty room in
      let e = placed p entry a (set_of p c a) w h now in
      (
        e,
        allocated p c a e w,
        runs,
        allocated-IsValid p c a w e v empty null
            (record {
              in_set = refl;
              tagged = ground (arith, ==_refl a);
              knows_set = refl;
              knows_way = refl;
              present = refl;
              aligned = l;
            })
            refl,
        (λ b. contents-allocated p c a b w e v empty null),
        refl,
        refl,
        refl,
      )
