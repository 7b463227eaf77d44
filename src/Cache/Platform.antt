-- ===== src/Cache/Platform.antt =====
-- What src/mem/ruby/structures/CacheMemory.cc calls and does not define: address arithmetic of
-- base/intmath.hh and mem/ruby/common/Address.hh, the replacement policy, the methods of
-- AbstractCacheEntry, and the banked arrays. The laws are what those interfaces document.
use patch_tectreee.Base.{
  ℕ, ◌+◌, ◌-◌, ◌≤◌, ◌<◌, ◌^◌, ◌≡◌, ◌⊎◌, Bool, true, false, Option, none, List, [], ◌∷◌,
}
use patch_tectreee.Ruby.{AccessPermission, is_not_present}

-- A `ReplaceableEntry`: its position, and the handle of its replacement data.
pub record ReplaceableEntry : Type 0 where
  pub set : ℕ
  pub way : ℕ
  pub replacement_data : ℕ

-- `e` is one of the elements of a list.
abbrev pub OneOf : ReplaceableEntry → List ReplaceableEntry → Type 0
OneOf e [] = ⊥
OneOf e (x ∷ xs) = (e ≡ x) ⊎ OneOf e xs

pub record Platform : Type 1 where
  -- The contents of a `DataBlock`, and the state of the policy with all its replacement data.
  pub Block : Type 0
  pub Policy : Type 0
  -- `makeLineAddress`, `bitSelect`, `floorLog2`.
  pub make_line_address : ℕ → ℕ
  pub bit_select : ℕ → ℕ → ℕ → ℕ
  pub floor_log2 : ℕ → ℕ
  pub make_line_address_idem :
      (a : ℕ) → make_line_address (make_line_address a) ≡ make_line_address a
  pub bit_select_bound : (a lo hi : ℕ) → lo ≤ hi → bit_select a lo hi < 2 ^ (hi + 1 - lo)
  pub floor_log2_bound : (n : ℕ) → 0 < n → 2 ^ floor_log2 n ≤ n
  -- The replacement policy: `instantiateEntry`, `touch` (with and without an occupancy), `reset`,
  -- `invalidate` and `getVictim`, which chooses among its candidates.
  pub instantiate_entry : Policy → ℕ × Policy
  pub touch : ℕ → Policy → Policy
  pub touch_occupancy : ℕ → ℕ → Policy → Policy
  pub reset : ℕ → Policy → Policy
  pub invalidate : ℕ → Policy → Policy
  pub get_victim : Policy → List ReplaceableEntry → ReplaceableEntry
  pub get_victim_candidate :
      (s : Policy) (e : ReplaceableEntry) (es : List ReplaceableEntry)
      → OneOf (get_victim s (e ∷ es)) (e ∷ es)
  -- `AbstractCacheEntry::setLocked`, `clearLocked` and `isLocked` on the field `m_locked`; `none` is
  -- the value -1.
  pub lock : ℕ → Option ℕ → Option ℕ
  pub unlock : Option ℕ → Option ℕ
  pub holds : Option ℕ → ℕ → Bool
  pub holds_lock : (l : Option ℕ) (c : ℕ) → holds (lock c l) c ≡ true
  pub holds_unlock : (l : Option ℕ) (c : ℕ) → holds (unlock l) c ≡ false
  pub holds_none : (c : ℕ) → holds none c ≡ false
  -- `invalidateEntry`, which a protocol overrides: what it makes of the permission and the data.
  pub invalidate_entry : AccessPermission → Block → AccessPermission × Block
  pub invalidate_entry_present :
      (m : AccessPermission) (b : Block)
      → is_not_present m ≡ false
      → is_not_present (invalidate_entry m b).0 ≡ false
