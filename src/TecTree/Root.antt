-- ===== src/TecTree/Root.antt =====
-- Which root counter a write-back increments. Code: `getL6Index` and `incrementRootCounter` of
-- learning_gem5/tardis_tso_tectree/TARDISTSO_TECTREE-dir.sm, `addressToInt` and `getParentAddr` of
-- src/mem/ruby/slicc_interface/RubySlicc_Util.hh.
use patch_tectreee.Base.{
  ℕ, zero, suc, ◌+◌, ◌-◌, ◌/◌, ◌≤◌, ◌<◌, ◌≡◌, refl, arith, ◌==◌, if◌then◌else◌, ltb, ◌^◌,
  Bool-cases,
}
use patch_tectreee.Base.Outcome.{Outcome, ok, abort}
use patch_tectreee.TecTree.{get_parent_addr, increment_root_counter, RootCounters}
use patch_tectreee.TecTree.Levels.{InLevel, level_base, get_parent_addr-eq, get_parent_addr-InLevel}

-- `n` applications of `getParentAddr`.
unfoldable pub ancestor : ℕ → ℕ → ℕ
ancestor zero a = a
ancestor (suc n) a = get_parent_addr (ancestor n a)

ancestor-InLevel : (n a : ℕ) → n ≤ 6 → InLevel 0 a → InLevel n (ancestor n a)
unfolding ancestor
ancestor-InLevel zero a h l = l
ancestor-InLevel (suc n) a h l =
    get_parent_addr-InLevel n (ancestor n a) (omega arith) (ancestor-InLevel n a (omega arith) l)

-- The number of a line within its level.
unfoldable pub line : ℕ → ℕ → ℕ
line k a = (a - level_base k) / 64

line-ancestor :
    (n a : ℕ) → n < 6 → InLevel 0 a → line (suc n) (ancestor (suc n) a) ≡ line n (ancestor n a) / 15
unfolding ancestor line
line-ancestor n a h l =
    omega (arith, get_parent_addr-eq n (ancestor n a) h (ancestor-InLevel n a (omega arith) l))

-- Six levels up, an address of the data lies in the line of level 6 that its index names.
line_top : (a : ℕ) → InLevel 0 a → line 6 (ancestor 6 a) ≡ a / 64 / 11390625
unfolding line ancestor
line_top a l = omega (
  arith,
  line-ancestor 0 a (omega arith) l,
  line-ancestor 1 a (omega arith) l,
  line-ancestor 2 a (omega arith) l,
  line-ancestor 3 a (omega arith) l,
  line-ancestor 4 a (omega arith) l,
  line-ancestor 5 a (omega arith) l,
)

-- The register for the line number `i`, below 3, of level 6.
abbrev pub root_cnt : ℕ → RootCounters → ℕ
root_cnt i r = if i == 0 then r.root_cnt_0 else if i == 1 then r.root_cnt_1 else r.root_cnt_2

-- After a write-back below line `i` of level 6: if that line's register is not the greatest `int`, it
-- has grown by one, the other two are as before, and one demand hit is counted.
abbrev pub Counted : ℕ → RootCounters → Outcome RootCounters → Type 0
Counted i r out =
    (r' : RootCounters) × (out ≡ (if ltb (root_cnt i r) (2 ^ 31 - 1) then ok r' else abort))
    × (i < 3)
    × (r'.root_cnt_0 ≡ r.root_cnt_0 + (if i == 0 then 1 else 0))
    × (r'.root_cnt_1 ≡ r.root_cnt_1 + (if i == 1 then 1 else 0))
    × (r'.root_cnt_2 ≡ r.root_cnt_2 + (if i == 2 then 1 else 0))
    × (r'.demand_hits ≡ r.demand_hits + 1)

Counted-index :
    (a : ℕ) (r : RootCounters)
    → InLevel 0 a
    → Counted (a / 64 / 11390625) r (increment_root_counter a r)
unfolding increment_root_counter
Counted-index a r l =
    let i = a / 64 / 11390625 in
    let small : i < 3 = omega arith in
    (
      record r {
        root_cnt_0 = r.root_cnt_0 + (if i == 0 then 1 else 0);
        root_cnt_1 = r.root_cnt_1 + (if i == 1 then 1 else 0);
        root_cnt_2 = r.root_cnt_2 + (if i == 2 then 1 else 0);
        demand_hits = r.demand_hits + 1;
      },
      ground (
        arith,
        small,
        Bool-cases (ltb r.root_cnt_0 (2 ^ 31 - 1)),
        Bool-cases (ltb r.root_cnt_1 (2 ^ 31 - 1)),
        Bool-cases (ltb r.root_cnt_2 (2 ^ 31 - 1)),
      ),
      small,
      refl,
      refl,
      refl,
      refl,
    )

-- For a data address, `incrementRootCounter` goes by the register of the line of level 6 above it, one
-- of three: it overflows if that register is the greatest `int`, and otherwise succeeds, increments
-- that register and no other, and counts one demand hit.
pub increment_root_counter-ancestor :
    (a : ℕ) (r : RootCounters)
    → InLevel 0 a
    → Counted (line 6 (ancestor 6 a)) r (increment_root_counter a r)
increment_root_counter-ancestor a r l = rw (line_top a l) (Counted-index a r l)

-- A write-back of a counter line (2 GB up to 3 GB) leaves the three registers as they are.
pub increment_root_counter-metadata :
    (a : ℕ) (r : RootCounters)
    → 0x80000000 ≤ a
    → a < 0xC0000000
    → increment_root_counter a r ≡ ok (record r { demand_hits = r.demand_hits + 1 })
unfolding increment_root_counter
increment_root_counter-metadata a r h l = ground arith
