-- ===== src/TecTree.antt =====
-- The address arithmetic of the TEC-tree: src/mem/ruby/slicc_interface/RubySlicc_Util.hh (the level
-- bases, the parent address, the integer views of an address), and the two functions of
-- learning_gem5/tardis_tso_tectree/TARDISTSO_TECTREE-dir.sm that walk the tree.
-- An `Addr` is a 64-bit word, a natural number below 2 ^ 64; its sums and differences wrap.
pub mod Levels
pub mod Walk
pub mod Root
pub mod Beyond
mod Tests
use patch_tectreee.Base.{
  ℕ, suc, ◌+◌, ◌-◌, ◌*◌, ◌/◌, ◌%◌, ◌^◌, Bool, ◌&&◌, not, ltb, leb, ◌==◌, if◌then◌else◌,
}
use patch_tectreee.Base.Outcome.{Outcome, ◌>>◌, ok, assert, ◌>>=◌}

-- The value of `getL1BaseAddr()` to `getL7BaseAddr()`; 2236963, 2386094, ... are counts of lines.
abbrev pub l1_base : ℕ
l1_base = 0x80000000

abbrev pub l2_base : ℕ
l2_base = 0x80000000 + 2236963 * 64

abbrev pub l3_base : ℕ
l3_base = 0x80000000 + 2386094 * 64

abbrev pub l4_base : ℕ
l4_base = 0x80000000 + 2396037 * 64

abbrev pub l5_base : ℕ
l5_base = 0x80000000 + 2396700 * 64

abbrev pub l6_base : ℕ
l6_base = 0x80000000 + 2396745 * 64

abbrev pub l7_base : ℕ
l7_base = 0x80000000 + 2396748 * 64

-- Sums and differences of 64-bit words.
abbrev pub add64 : ℕ → ℕ → ℕ
add64 a b = (a + b) % 2 ^ 64

abbrev pub sub64 : ℕ → ℕ → ℕ
sub64 a b = (a + 2 ^ 64 - b) % 2 ^ 64

pub calc_counter_addr : ℕ → ℕ
calc_counter_addr addr = add64 l1_base ((addr / 960) * 64)

pub is_metadata_addr : ℕ → Bool
is_metadata_addr addr = leb 0x80000000 addr && ltb addr 0xC0000000

pub calc_l2_addr : ℕ → ℕ
calc_l2_addr l1_addr = add64 l2_base ((sub64 l1_addr l1_base / 960) * 64)

pub calc_l3_addr : ℕ → ℕ
calc_l3_addr l2_addr = add64 l3_base ((sub64 l2_addr l2_base / 960) * 64)

pub calc_l4_addr : ℕ → ℕ
calc_l4_addr l3_addr = add64 l4_base ((sub64 l3_addr l3_base / 960) * 64)

pub calc_l5_addr : ℕ → ℕ
calc_l5_addr l4_addr = add64 l5_base ((sub64 l4_addr l4_base / 960) * 64)

pub calc_l6_addr : ℕ → ℕ
calc_l6_addr l5_addr = add64 l6_base ((sub64 l5_addr l5_base / 960) * 64)

pub is_l1_addr : ℕ → Bool
is_l1_addr addr = leb l1_base addr && ltb addr l2_base

pub is_l2_addr : ℕ → Bool
is_l2_addr addr = leb l2_base addr && ltb addr l3_base

pub is_l3_addr : ℕ → Bool
is_l3_addr addr = leb l3_base addr && ltb addr l4_base

pub is_l4_addr : ℕ → Bool
is_l4_addr addr = leb l4_base addr && ltb addr l5_base

pub is_l5_addr : ℕ → Bool
is_l5_addr addr = leb l5_base addr && ltb addr l6_base

pub is_l6_addr : ℕ → Bool
is_l6_addr addr = leb l6_base addr && ltb addr l7_base

-- The counter line that covers `addr`; 0 where no parent is in memory.
pub get_parent_addr : ℕ → ℕ
unfolding is_metadata_addr calc_counter_addr calc_l2_addr calc_l3_addr calc_l4_addr calc_l5_addr
    calc_l6_addr is_l1_addr is_l2_addr is_l3_addr is_l4_addr is_l5_addr is_l6_addr
get_parent_addr addr =
    if not (is_metadata_addr addr)
    then calc_counter_addr addr
    else if is_l1_addr addr
    then calc_l2_addr addr
    else if is_l2_addr addr
    then calc_l3_addr addr
    else if is_l3_addr addr
    then calc_l4_addr addr
    else if is_l4_addr addr
    then calc_l5_addr addr
    else if is_l5_addr addr
    then calc_l6_addr addr
    else if is_l6_addr addr
    then 0
    else 0

-- A C++ `int`: `negsuc n` is -(n + 1).
pub data ℤ : Type 0 where
  pos : ℕ → ℤ
  negsuc : ℕ → ℤ

-- `addressToInt`: the assertion refuses an address with a bit above the 32nd, and the conversion to
-- `int` keeps the 32 bits in two's complement.
pub address_to_int : ℕ → Outcome ℤ
address_to_int addr = do
  assert (addr / 2 ^ 32 == 0)
  ok (if ltb addr (2 ^ 31) then pos addr else negsuc (2 ^ 32 - addr - 1))

-- `intToAddress`: a negative value is sign-extended to 64 bits, which the assertion refuses.
pub int_to_address : ℤ → Outcome ℕ
int_to_address (pos n) = do assert (n / 2 ^ 32 == 0); ok n
int_to_address (negsuc n) = Outcome.abort

-- Division of an `int` by a positive constant, which rounds towards 0.
abbrev pub div_int : ℤ → ℕ → ℤ
div_int (pos n) k = pos (n / k)
div_int (negsuc n) k = if suc n / k == 0 then pos 0 else negsuc (suc n / k - 1)

-- `getFirstMissingParent`, with the cache's `isTagPresent` as an argument. 0 is `intToAddress(0)`.
pub get_first_missing_parent : (ℕ → Bool) → ℕ → ℕ
get_first_missing_parent present current_addr =
    let l1 = get_parent_addr current_addr in
    if l1 == 0
    then 0
    else if not (present l1)
    then l1
    else let l2 = get_parent_addr l1 in
      if l2 == 0
      then 0
      else if not (present l2)
      then l2
      else let l3 = get_parent_addr l2 in
        if l3 == 0
        then 0
        else if not (present l3)
        then l3
        else let l4 = get_parent_addr l3 in
          if l4 == 0
          then 0
          else if not (present l4)
          then l4
          else let l5 = get_parent_addr l4 in
            if l5 == 0
            then 0
            else if not (present l5)
            then l5
            else let l6 = get_parent_addr l5 in
              if l6 == 0 then 0 else if not (present l6) then l6 else 0

-- `getL6Index`: which of the three root counters a write below belongs to.
pub get_l6_index : ℕ → Outcome ℤ
unfolding address_to_int
get_l6_index addr = elim (address_to_int addr) [
  | ok n ↦ ok (div_int (div_int n 64) 11390625)
  | Outcome.abort ↦ Outcome.abort
]

-- The state that `incrementRootCounter` writes: the three registers of the directory, and the
-- demand hits that the cache counts (`LLC.profileDemandHit()`). A register is an `int` that starts at
-- 0 and is only ever incremented, so that it is a number below 2 ^ 31.
pub record RootCounters : Type 0 where
  pub root_cnt_0 : ℕ
  pub root_cnt_1 : ℕ
  pub root_cnt_2 : ℕ
  pub demand_hits : ℕ

-- `n + 1` of an `int` that is not negative; the overflow of the greatest is undefined.
abbrev increment_int : ℕ → Outcome ℕ
increment_int n = if ltb n (2 ^ 31 - 1) then ok (n + 1) else Outcome.abort

-- The branch of `incrementRootCounter` on the index.
pub increment_root_at : ℤ → RootCounters → Outcome RootCounters
increment_root_at (pos idx) r =
    if idx == 0
    then (do n ← increment_int r.root_cnt_0; ok (record r { root_cnt_0 = n }))
    else if idx == 1
    then (do n ← increment_int r.root_cnt_1; ok (record r { root_cnt_1 = n }))
    else if idx == 2
    then (do n ← increment_int r.root_cnt_2; ok (record r { root_cnt_2 = n }))
    else ok r
increment_root_at (negsuc idx) r = ok r

-- The action `incrementRootCounter` at the address that is written back.
pub increment_root_counter : ℕ → RootCounters → Outcome RootCounters
unfolding get_l6_index increment_root_at
increment_root_counter address r = do
  idx ← get_l6_index address
  r' ← increment_root_at idx r
  ok (record r' { demand_hits = r'.demand_hits + 1 })
