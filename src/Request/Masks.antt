-- ===== src/Request/Masks.antt =====
-- The flag words of src/mem/request.hh. A word is the function from a bit's number to that bit.
-- `gem5::Flags` is declared outside the repository: `FlagWord` is what its interface documents.
use patch_tectreee.Base.{ℕ, zero, suc, ◌<◌, ◌≡◌, Bool, false, not, ◌&&◌, ◌||◌, ◌==◌}

abbrev pub Mask : Type 0
Mask = ℕ → Bool

-- The word with the bit `n` alone; `|`, `&` and `~` of words.
abbrev pub bit : ℕ → Mask
bit n i = i == n

abbrev pub either_of : Mask → Mask → Mask
either_of m n i = m i || n i

abbrev pub both_of : Mask → Mask → Mask
both_of m n i = m i && n i

abbrev pub none_of : Mask → Mask
none_of m i = not (m i)

-- A word of `w` bits that is not 0.
unfoldable pub nonzero : ℕ → Mask → Bool
nonzero zero m = false
nonzero (suc w) m = m w || nonzero w m

-- `gem5::Flags` over a word of `w` bits: the default constructor, the conversion to the word, `set`,
-- `clear` and `isSet` of a mask.
pub record FlagWord (w : ℕ) : Type 1 where
  pub Flags : Type 0
  pub cleared : Flags
  pub bits : Flags → Mask
  pub set : Flags → Mask → Flags
  pub clear : Flags → Mask → Flags
  pub is_set : Flags → Mask → Bool
  pub bits_cleared : (i : ℕ) → i < w → bits cleared i ≡ false
  pub bits_set : (f : Flags) (m : Mask) (i : ℕ) → i < w → bits (set f m) i ≡ (bits f i || m i)
  pub bits_clear :
      (f : Flags) (m : Mask) (i : ℕ) → i < w → bits (clear f m) i ≡ (bits f i && not (m i))
  pub is_set_bits : (f : Flags) (m : Mask) → is_set f m ≡ nonzero w (both_of (bits f) m)
