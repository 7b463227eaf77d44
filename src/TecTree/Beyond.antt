-- ===== src/TecTree/Beyond.antt =====
-- Data above the metadata region. Code: `getParentAddr` and `calcCounterAddr` of
-- src/mem/ruby/slicc_interface/RubySlicc_Util.hh.
use patch_tectreee.Base.{ℕ, ◌+◌, ◌*◌, ◌/◌, ◌≤◌, ◌<◌, ◌≡◌, [], ◌∷◌, arith}
use patch_tectreee.TecTree.{get_parent_addr, l1_base, l7_base}
use patch_tectreee.TecTree.Walk.{ancestors}

counter_above :
    (a : ℕ) → 0xC0000000 ≤ a → a < 0x3C0000000 → get_parent_addr a ≡ l1_base + a / 960 * 64
unfolding get_parent_addr
counter_above a h l = ground arith

gap_parent : (p : ℕ) → l7_base ≤ p → p < 0xC0000000 → get_parent_addr p ≡ 0
unfolding get_parent_addr
gap_parent p h l = ground arith

-- A data address from 3 GB up to 15 GB gets a counter address that lies above the last level, so
-- that its walk ends after one step, without reaching level 2 or a line of level 6.
pub ancestors-beyond :
    (a : ℕ)
    → 0xC0000000 ≤ a
    → a < 0x3C0000000
    → (ancestors 7 a ≡ get_parent_addr a ∷ []) × (l7_base ≤ get_parent_addr a)
unfolding ancestors
ancestors-beyond a h l = (
  ground (arith, counter_above a h l, gap_parent (get_parent_addr a)),
  omega (arith, counter_above a h l),
)
