-- ===== src/Lsq/Platform.antt =====
-- What src/cpu/o3/lsq.cc uses of base/ and cpu/utils.hh, which are not in the repository.
use patch_tectreee.Base.{ℕ, ◌+◌, ◌%◌, ltb, ◌*◌, ◌/◌, ◌^◌, ◌≡◌, Bool, false, ◌||◌, List, [], ◌∷◌}

pub record LsqPlatform : Type 1 where
  -- A fault of the pipeline; `NoFault` is `none` where a fault may be.
  pub FaultObject : Type 0
  -- `addrBlockAlign`: the start of the aligned block with an address.
  pub addr_block_align : ℕ → ℕ → ℕ
  pub addr_block_align_pow : (a n : ℕ) → addr_block_align a (2 ^ n) ≡ a / 2 ^ n * 2 ^ n
  -- `isAnyActiveElement` of a range of byte enables.
  pub is_any_active_element : List Bool → Bool
  pub is_any_active_element-none : is_any_active_element [] ≡ false
  pub is_any_active_element-cons :
      (b : Bool) (bs : List Bool) → is_any_active_element (b ∷ bs) ≡ (b || is_any_active_element bs)
  -- `transferNeedsBurst`: whether an access crosses the end of an aligned block.
  pub transfer_needs_burst : ℕ → ℕ → ℕ → Bool
  pub transfer_needs_burst_pow :
      (a size n : ℕ) → transfer_needs_burst a size (2 ^ n) ≡ ltb (2 ^ n) (a % 2 ^ n + size)
