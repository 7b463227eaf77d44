-- ===== src/Cache/Replace.antt =====
-- `CacheMemory::cacheProbe`, and the replacement of a line: probe, deallocate, allocate.
-- Code: src/mem/ruby/structures/CacheMemory.cc.
use patch_tectreee.Base.{
  ℕ, suc, ◌<◌, ◌≡◌, refl, sym, ap, ◌∙◌, inl, inr, false, ◌==◌, Option, none, some, List, [], ◌∷◌,
  arith, get_elem?, length, if◌then◌else◌,
}
use patch_tectreee.Base.Outcome.{Outcome, ok, ◌>>=◌}
use patch_tectreee.Cache.Platform.{Platform, ReplaceableEntry, OneOf}
use patch_tectreee.Cache.State.{Entry, CacheMemory, get_cell}
use patch_tectreee.Cache.Access.{set_of, cache_avail}
use patch_tectreee.Cache.Update.{candidates, cache_probe, deallocate, allocate}
use patch_tectreee.Cache.Cells.{HasShape-row, get_cell-row}
use patch_tectreee.Cache.Invariant.{IsLine, IsValid, contents, address_to_cache_set-line, set_of-lt}
use patch_tectreee.Cache.Room.{cache_avail-cases, IsFull}
use patch_tectreee.Cache.Allocate.{allocate-contents}
use patch_tectreee.Cache.Deallocate.{deallocate-contents}

module _ (p : Platform) where
  open p use {get_victim, get_victim_candidate}

  -- An entry as the policy sees it.
  abbrev candidate : Entry p → ReplaceableEntry
  candidate e = record { set = e.set; way = e.way; replacement_data = e.replacement_data }

  abbrev HasEntries : List (Option (Entry p)) → Type 0
  HasEntries row = (k : ℕ) → k < length row → (e : Entry p) × (get_elem? row k ≡ some (some e))

  abbrev FromRow : List (Option (Entry p)) → List ReplaceableEntry → Type 0
  FromRow row cs =
      (r : ReplaceableEntry)
      → OneOf r cs
      → (k : ℕ) × (e : Entry p) × (get_elem? row k ≡ some (some e)) × (r ≡ candidate e)

  FromRow-cons :
      (x : Entry p) (row : List (Option (Entry p))) (cs : List ReplaceableEntry)
      → FromRow row cs
      → FromRow (some x ∷ row) (candidate x ∷ cs)
  FromRow-cons x row cs from r (inl q) = (0, x, refl, q)
  FromRow-cons x row cs from r (inr m) = let (k, e, at, q) = from r m in (suc k, e, at, q)

  -- A row of entries has a candidate for each of them, and no other.
  candidates_row :
      (row : List (Option (Entry p)))
      → HasEntries row
      → (cs : List ReplaceableEntry) × (candidates p row ≡ ok cs) × FromRow row cs
  unfolding candidates
  candidates_row [] has = ([], refl, λ r m. absurd m)
  candidates_row (none ∷ row) has = absurd (ground (arith, (has 0 (omega arith)).1))
  candidates_row (some x ∷ row) has =
      let (cs, run, from) = candidates_row row (λ k h. has (suc k) (omega arith)) in
      (candidate x ∷ cs, rw run refl, FromRow-cons x row cs from)

  victim_row :
      (s : p.Policy) (row : List (Option (Entry p)))
      → 0 < length row
      → HasEntries row
      → (cs : List ReplaceableEntry) × (candidates p row ≡ ok cs)
        × (k : ℕ) × (e : Entry p) × (get_elem? row k ≡ some (some e))
        × (get_victim s cs ≡ candidate e)
  unfolding candidates
  victim_row s [] h has = absurd (omega arith)
  victim_row s (none ∷ row) h has = absurd (ground (arith, (has 0 (omega arith)).1))
  victim_row s (some x ∷ row) h has =
      let (cs, run, from) = candidates_row row (λ k h. has (suc k) (omega arith)) in
      let (k, e, at, q) =
        FromRow-cons x row cs from (get_victim s (candidate x ∷ cs))
          (get_victim_candidate s (candidate x) cs) in
      (candidate x ∷ cs, rw run refl, k, e, at, q)

  cache_avail-IsFull :
      (c : CacheMemory p) (a : ℕ)
      → IsValid p c
      → IsLine p a
      → cache_avail p c a ≡ ok false
      → IsFull p c a × (contents p c a ≡ none)
  cache_avail-IsFull c a v l full = elim (cache_avail-cases p c a v l) [
    | inl (room, why) ↦ absurd (ground (arith, room, full))
    | inr (no_room, all, lacks) ↦ (all, lacks)
  ]

  full_row :
      (c : CacheMemory p) (a : ℕ) (row : List (Option (Entry p)))
      → IsFull p c a
      → get_elem? c.cache (set_of p c a) ≡ some row
      → length row ≡ c.assoc
      → HasEntries row
  full_row c a row all q n k h =
      let (e, cell, other) = all k (omega (arith, n)) in
      (e, sym (get_cell-row c.cache (set_of p c a) k row q) ∙ cell)

  -- On a well-formed cache without room for a line address, `cacheProbe` gives the address of an
  -- entry that the map has in the same set.
  pub cache_probe-contents :
      (c : CacheMemory p) (a : ℕ)
      → IsValid p c
      → IsLine p a
      → cache_avail p c a ≡ ok false
      → (e : Entry p) × (cache_probe p c a ≡ ok e.address)
        × (contents p c e.address ≡ some e)
        × (set_of p c e.address ≡ set_of p c a)
        × IsLine p e.address
        × (contents p c a ≡ none)
  unfolding cache_probe
  cache_probe-contents c a v l full =
      let (all, lacks) = cache_avail-IsFull c a v l full in
      let (row, q, n) =
        HasShape-row c.cache_num_sets c.assoc c.cache (set_of p c a) v.rows (set_of-lt p c a v) in
      let (cs, run, k, e, at, chosen) =
        victim_row c.policy row (omega (arith, n, v.ways)) (full_row c a row all q n) in
      let cell : get_cell c.cache (set_of p c a) k ≡ some (some e) =
        get_cell-row c.cache (set_of p c a) k row q ∙ at in
      let place = v.stored (set_of p c a) k e cell in
      let own : get_cell c.cache (set_of p c a) e.way ≡ some (some e) =
        ap (get_cell c.cache (set_of p c a)) place.knows_way ∙ cell in
      (
        e,
        rw (l, full, address_to_cache_set-line p c a l, q, run, chosen, own) refl,
        ground (arith, place.tagged, place.in_set, cell),
        sym place.in_set,
        place.aligned,
        lacks,
      )

  -- What a protocol does to bring a line into a full set: probe, deallocate the victim, allocate.
  abbrev pub replace : CacheMemory p → ℕ → ℕ → Entry p → Outcome (Entry p × CacheMemory p)
  replace c now a entry = do
    victim ← cache_probe p c a
    c' ← deallocate p c victim
    allocate p c' now a entry

  -- On a well-formed cache without room for a line address, the replacement of a line succeeds and
  -- leaves the cache well-formed: the map loses one entry, of the same set, gains the new one, and is
  -- otherwise unchanged.
  pub replace-contents :
      (c : CacheMemory p) (now a : ℕ) (entry : Entry p)
      → IsValid p c
      → IsLine p a
      → cache_avail p c a ≡ ok false
      → (victim : Entry p) × (e : Entry p) × (c' : CacheMemory p) × (replace c now a entry
          ≡ ok (e, c'))
        × IsValid p c'
        × (contents p c victim.address ≡ some victim)
        × (set_of p c victim.address ≡ set_of p c a)
        × ((b : ℕ)
            → contents p c' b
              ≡ (if a == b then some e else if victim.address == b then none else contents p c b))
  replace-contents c now a entry v l full =
      let (x, probe, has, same, lx, lacks) = cache_probe-contents c a v l full in
      let (c1, freed, v1, map1, told, room) = deallocate-contents p c x.address x v lx has in
      let still : contents p c1 a ≡ none = ground (arith, map1 a, lacks) in
      let (e, c2, placed, v2, map2, addr, perm, lock) =
        allocate-contents p c1 now a entry v1 l still (room a l same) in
      (
        x,
        e,
        c2,
        rw (probe, freed, placed) refl,
        v2,
        has,
        same,
        (λ b. ground (arith, map2 b, map1 b)),
      )
