-- ===== src/Cache/Init.antt =====
-- The cache that the constructor and `CacheMemory::init` build.
-- Code: src/mem/ruby/structures/CacheMemory.cc.
use patch_tectreee.Base.{
  ℕ, zero, suc, ◌<◌, ◌/◌, ◌≡◌, refl, ap, ◌==◌, lt→ltb, get_elem?, none, some, arith, length,
  replicate, if◌then◌else◌, All,
}
use patch_tectreee.Base.Outcome.{ok}
use patch_tectreee.Cache.Platform.{Platform}
use patch_tectreee.Cache.State.{
  Entry, CacheMemory, Params, init, built, instantiate_row, instantiate_rows, get_cell,
}
use patch_tectreee.Cache.Cells.{All-replicate, length-replicate}
use patch_tectreee.Cache.Invariant.{IsValid, contents}

module _ (p : Platform) where
  open p use {Policy, floor_log2, floor_log2_bound}

  length-instantiate_row : (n : ℕ) (s : Policy) → length (instantiate_row p n s).0 ≡ n
  unfolding instantiate_row
  length-instantiate_row zero s = refl
  length-instantiate_row (suc n) s = ap suc (length-instantiate_row n _)

  length-instantiate_rows : (n m : ℕ) (s : Policy) → length (instantiate_rows p n m s).0 ≡ n
  unfolding instantiate_rows
  length-instantiate_rows zero m s = refl
  length-instantiate_rows (suc n) m s = ap suc (length-instantiate_rows n m _)

  All-instantiate_rows :
      (n m : ℕ) (s : Policy) → All (λ r. length r ≡ m) (instantiate_rows p n m s).0
  unfolding instantiate_rows
  All-instantiate_rows zero m s = tt
  All-instantiate_rows (suc n) m s = (length-instantiate_row m s, All-instantiate_rows n m _)

  -- The block size that `init` works with.
  abbrev pub effective_block_size : ℕ → Params → ℕ
  effective_block_size system_block_size ps =
      if ps.block_size == 0 then system_block_size else ps.block_size

  abbrev pub sets : ℕ → Params → ℕ
  sets system_block_size ps = ps.size / ps.assoc / effective_block_size system_block_size ps

  row_null : (m w : ℕ) (e : Entry p) → (get_elem? (replicate m none) w ≡ some (some e)) → ⊥
  row_null zero w e h = cc
  row_null (suc m) zero e h = ground (arith, h)
  row_null (suc m) (suc w) e h = row_null m w e h

  table_null :
      (n m s w : ℕ) (e : Entry p)
      → (get_cell (replicate n (replicate m none)) s w ≡ some (some e))
      → ⊥
  table_null zero m s w e h = cc
  table_null (suc n) m zero w e h = row_null m w e h
  table_null (suc n) m (suc s) w e h = table_null n m s w e h

  built-IsValid :
      (block_size num_sets : ℕ) (ps : Params) (s : Policy)
      → 0 < ps.assoc
      → 0 < num_sets
      → 0 < floor_log2 num_sets
      → IsValid p (built p block_size num_sets ps s)
  unfolding built
  built-IsValid block_size num_sets ps s ways some_set bits = record {
    rows = (
      length-replicate num_sets _,
      All-replicate (λ r. length r ≡ ps.assoc) num_sets _ (length-replicate ps.assoc none),
    );
    handles =
        (length-instantiate_rows num_sets ps.assoc s, All-instantiate_rows num_sets ps.assoc s);
    ways = ways;
    index_bits = bits;
    sets_fit = floor_log2_bound num_sets some_set;
    indexed = λ a w t. absurd (ground (arith, t));
    stored = λ i w e h. absurd (table_null num_sets ps.assoc i w e h);
  }

  -- If the size, the associativity and the block size give at least two sets, of at least one index
  -- bit, then `init` succeeds with a well-formed cache of that many sets, whose map is empty.
  pub init-IsValid :
      (system_block_size : ℕ) (ps : Params) (s : Policy)
      → 0 < ps.assoc
      → 0 < effective_block_size system_block_size ps
      → 1 < sets system_block_size ps
      → 0 < floor_log2 (sets system_block_size ps)
      → (c : CacheMemory p) × (init p system_block_size ps s ≡ ok c)
        × IsValid p c
        × (c.cache_num_sets ≡ sets system_block_size ps)
        × ((a : ℕ) → contents p c a ≡ none)
  unfolding init built
  init-IsValid system_block_size ps s ways block two bits = (
    built p (effective_block_size system_block_size ps) (sets system_block_size ps) ps s,
    rw (lt→ltb _ _ ways, lt→ltb _ _ block, lt→ltb _ _ two, lt→ltb _ _ bits) refl,
    built-IsValid (effective_block_size system_block_size ps) (sets system_block_size ps) ps s ways
        (omega (arith, two)) bits,
    refl,
    (λ a. refl),
  )
