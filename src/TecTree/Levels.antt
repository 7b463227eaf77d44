-- ===== src/TecTree/Levels.antt =====
-- The geometry of the tree: each level is covered exactly by the one above it.
-- Code: src/mem/ruby/slicc_interface/RubySlicc_Util.hh, `getParentAddr` and the level bases.
use patch_tectreee.Base.{ℕ, zero, suc, ◌+◌, ◌-◌, ◌*◌, ◌/◌, ◌%◌, ◌≤◌, ◌<◌, ◌≡◌, refl, ◌↔◌, arith}
use patch_tectreee.TecTree.{
  l1_base, l2_base, l3_base, l4_base, l5_base, l6_base, l7_base, get_parent_addr,
}

-- Where level `k` begins. Level 0 is the data below 2 GB, levels 1 to 6 are the counters.
abbrev pub level_base : ℕ → ℕ
level_base zero = 0
level_base (suc zero) = l1_base
level_base (suc (suc zero)) = l2_base
level_base (suc (suc (suc zero))) = l3_base
level_base (suc (suc (suc (suc zero)))) = l4_base
level_base (suc (suc (suc (suc (suc zero))))) = l5_base
level_base (suc (suc (suc (suc (suc (suc zero)))))) = l6_base
level_base _ = l7_base

abbrev pub InLevel : ℕ → ℕ → Type 0
InLevel k a = (level_base k ≤ a) × (a < level_base (suc k))

-- The number of the 960-byte group that an address of level `k` lies in.
abbrev pub group : ℕ → ℕ → ℕ
group k a = (a - level_base k) / 960

-- The parent of an address of level k is line number `group k a` of level k + 1.
pub get_parent_addr-eq :
    (k a : ℕ) → k < 6 → InLevel k a → get_parent_addr a ≡ level_base (suc k) + group k a * 64
unfolding get_parent_addr
get_parent_addr-eq zero a h l = ground arith
get_parent_addr-eq (suc zero) a h l = ground arith
get_parent_addr-eq (suc (suc zero)) a h l = ground arith
get_parent_addr-eq (suc (suc (suc zero))) a h l = ground arith
get_parent_addr-eq (suc (suc (suc (suc zero)))) a h l = ground arith
get_parent_addr-eq (suc (suc (suc (suc (suc zero))))) a h l = ground arith
get_parent_addr-eq (suc (suc (suc (suc (suc (suc k)))))) a h l = absurd (omega arith)

group_bound :
    (k a : ℕ) → k < 6 → InLevel k a → InLevel (suc k) (level_base (suc k) + group k a * 64)
group_bound zero a h l = omega arith
group_bound (suc zero) a h l = omega arith
group_bound (suc (suc zero)) a h l = omega arith
group_bound (suc (suc (suc zero))) a h l = omega arith
group_bound (suc (suc (suc (suc zero)))) a h l = omega arith
group_bound (suc (suc (suc (suc (suc zero))))) a h l = omega arith
group_bound (suc (suc (suc (suc (suc (suc k)))))) a h l = absurd (omega arith)

-- The parent of an address of a level below the sixth lies in the next level.
pub get_parent_addr-InLevel : (k a : ℕ) → k < 6 → InLevel k a → InLevel (suc k) (get_parent_addr a)
get_parent_addr-InLevel k a h l = rw (get_parent_addr-eq k a h l) (group_bound k a h l)

-- An address of the sixth level has no parent.
pub get_parent_addr-top : (a : ℕ) → InLevel 6 a → get_parent_addr a ≡ 0
unfolding get_parent_addr
get_parent_addr-top a l = ground arith

-- Two addresses of one level below the sixth have the same parent exactly if they lie in the same
-- group of 960 bytes (15 lines).
pub get_parent_addr-eq_iff :
    (k a b : ℕ)
    → k < 6
    → InLevel k a
    → InLevel k b
    → (get_parent_addr a ≡ get_parent_addr b) ↔ (group k a ≡ group k b)
get_parent_addr-eq_iff k a b h la lb = (
  (λ e. omega (arith, e, get_parent_addr-eq k a h la, get_parent_addr-eq k b h lb)),
  (λ e. omega (arith, e, get_parent_addr-eq k a h la, get_parent_addr-eq k b h lb)),
)

-- The first address of the group that the line `p` of level k + 1 covers.
abbrev pub first_child : ℕ → ℕ → ℕ
first_child k p = level_base k + (p - level_base (suc k)) / 64 * 960

first_child-InLevel : (k p : ℕ) → k < 6 → InLevel (suc k) p → InLevel k (first_child k p)
first_child-InLevel zero p h l = omega arith
first_child-InLevel (suc zero) p h l = omega arith
first_child-InLevel (suc (suc zero)) p h l = omega arith
first_child-InLevel (suc (suc (suc zero))) p h l = omega arith
first_child-InLevel (suc (suc (suc (suc zero)))) p h l = omega arith
first_child-InLevel (suc (suc (suc (suc (suc zero))))) p h l = omega arith
first_child-InLevel (suc (suc (suc (suc (suc (suc k)))))) p h l = absurd (omega arith)

level_base-aligned : (k : ℕ) → level_base (suc k) % 64 ≡ 0
level_base-aligned zero = refl
level_base-aligned (suc zero) = refl
level_base-aligned (suc (suc zero)) = refl
level_base-aligned (suc (suc (suc zero))) = refl
level_base-aligned (suc (suc (suc (suc zero)))) = refl
level_base-aligned (suc (suc (suc (suc (suc zero))))) = refl
level_base-aligned (suc (suc (suc (suc (suc (suc k)))))) = refl

-- No counter line is wasted: each 64-byte line of levels 1 to 6 is the parent of some address of the
-- level below.
pub get_parent_addr-onto :
    (k p : ℕ)
    → k < 6
    → InLevel (suc k) p
    → p % 64 ≡ 0
    → (a : ℕ) × InLevel k a × (get_parent_addr a ≡ p)
get_parent_addr-onto k p h l e = (
  first_child k p,
  first_child-InLevel k p h l,
  omega (
    arith,
    e,
    l,
    level_base-aligned k,
    get_parent_addr-eq k (first_child k p) h (first_child-InLevel k p h l),
  ),
)
