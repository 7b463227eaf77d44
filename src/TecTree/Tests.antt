-- ===== src/TecTree/Tests.antt =====
-- Runs and instances of the tree's theorems at concrete addresses.
use patch_tectreee.Base.{◌≤◌, ◌≡◌, refl, ◌==◌, not, [], ◌∷◌, arith}
use patch_tectreee.TecTree.{
  RootCounters, get_parent_addr, get_first_missing_parent, increment_root_counter, l7_base,
}
use patch_tectreee.TecTree.Levels
use patch_tectreee.TecTree.Levels.{InLevel, group}
use patch_tectreee.TecTree.Walk
use patch_tectreee.TecTree.Walk.{ancestors, Climbs, Finds}
use patch_tectreee.TecTree.Root
use patch_tectreee.TecTree.Root.{ancestor, line, Counted}
use patch_tectreee.TecTree.Beyond

-- The walk from the last data line of the lower 2 GB.
ancestors_last :
    ancestors 7 0x7fffffc0
    ≡ 0x88888880 ∷ 0x891a2b40 ∷ 0x8923e100 ∷ 0x892486c0 ∷ 0x89249200 ∷ 0x892492c0 ∷ []
unfolding ancestors get_parent_addr
ancestors_last = refl

get_parent_addr-InLevel_example : InLevel 2 (get_parent_addr 0x80001000)
get_parent_addr-InLevel_example =
    Levels.get_parent_addr-InLevel 1 0x80001000 (omega arith) (omega arith)

ancestors-Climbs_example : Climbs 1 (ancestors 7 0x12340)
ancestors-Climbs_example =
    Walk.ancestors-Climbs 7 0 0x12340 (omega arith) (omega arith) (omega arith)

get_first_missing_parent-Finds_example :
    Finds
      (λ p. not (p == 0x80001380))
      (ancestors 7 0x12340)
      (get_first_missing_parent (λ p. not (p == 0x80001380)) 0x12340)
get_first_missing_parent-Finds_example =
    Walk.get_first_missing_parent-Finds (λ p. not (p == 0x80001380)) 7 0 0x12340 (omega arith)
      (omega arith) (omega arith)

abbrev no_counts : RootCounters
no_counts = record { root_cnt_0 = 0; root_cnt_1 = 0; root_cnt_2 = 0; demand_hits = 0 }

increment_root_counter-ancestor_example :
    Counted (line 6 (ancestor 6 0x7fffffc0)) no_counts (increment_root_counter 0x7fffffc0 no_counts)
increment_root_counter-ancestor_example =
    Root.increment_root_counter-ancestor 0x7fffffc0 no_counts (omega arith)

ancestors-beyond_example :
    (ancestors 7 0x100000000 ≡ get_parent_addr 0x100000000 ∷ [])
    × (l7_base ≤ get_parent_addr 0x100000000)
ancestors-beyond_example = Beyond.ancestors-beyond 0x100000000 (omega arith) (omega arith)
