-- ===== src/Request/Bits.antt =====
-- What the masks of src/mem/request.hh test in a word of flags.
use patch_tectreee.Base.{
  ℕ, zero, suc, ◌<◌, ◌≡◌, refl, ap, ◌∙◌, inl, inr, Bool, true, false, not, ◌&&◌, ◌||◌, ◌==◌, arith,
  Bool-cases, ==-eq,
}
use patch_tectreee.Request.Masks.{Mask, bit, either_of, both_of, nonzero, FlagWord}

-- A word without the bit `n` has nothing in common with it.
nonzero-above : (w n : ℕ) (m : Mask) → (n < w → ⊥) → nonzero w (both_of m (bit n)) ≡ false
unfolding nonzero
nonzero-above zero n m h = refl
nonzero-above (suc w) n m h =
    let rest = nonzero-above w n m (λ l. h (omega arith)) in
    ground (arith, rest, h, Bool-cases (m w))

pub nonzero-bit : (w n : ℕ) (m : Mask) → n < w → nonzero w (both_of m (bit n)) ≡ m n
unfolding nonzero
nonzero-bit zero n m h = absurd (omega arith)
nonzero-bit (suc w) n m h = elim (Bool-cases (w == n)) [
  | inl same ↦
      let e = ==-eq w n same in
      let rest = nonzero-above w n m (λ l. omega arith) in
      ground (arith, e, rest, ap m e, Bool-cases (m n))
  | inr other ↦
      let rest = nonzero-bit w n m (ground (arith, other, h)) in
      ground (arith, rest, other, Bool-cases (m w), Bool-cases (m n))
]

pub nonzero-eq :
    (w : ℕ) (k l m : Mask)
    → ((i : ℕ) → i < w → k i ≡ l i)
    → nonzero w (both_of k m) ≡ nonzero w (both_of l m)
unfolding nonzero
nonzero-eq zero k l m h = refl
nonzero-eq (suc w) k l m h =
    rw (h w (omega arith), nonzero-eq w k l m (λ i b. h i (omega arith))) refl

regroup : (a b c x y : Bool) → ((a && (b || c)) || (x || y)) ≡ (((a && b) || x) || ((a && c) || y))
regroup false b c x y = refl
regroup true false false false y = refl
regroup true false true false y = refl
regroup true false false true y = refl
regroup true false true true y = refl
regroup true true c x y = refl

pub nonzero-either :
    (w : ℕ) (m k l : Mask)
    → nonzero w (both_of m (either_of k l)) ≡ (nonzero w (both_of m k) || nonzero w (both_of m l))
unfolding nonzero
nonzero-either zero m k l = refl
nonzero-either (suc w) m k l =
    rw (nonzero-either w m k l)
      (regroup (m w) (k w) (l w) (nonzero w (both_of m k)) (nonzero w (both_of m l)))

module _ (w : ℕ) (o : FlagWord w) where
  open o use {Flags, bits, set, clear, is_set}

  pub is_set-bit : (f : Flags) (n : ℕ) → n < w → is_set f (bit n) ≡ bits f n
  is_set-bit f n h = o.is_set_bits f (bit n) ∙ nonzero-bit w n (bits f) h

  pub is_set-either :
      (f : Flags) (k l : Mask) → is_set f (either_of k l) ≡ (is_set f k || is_set f l)
  is_set-either f k l =
      rw
        (
          o.is_set_bits f (either_of k l),
          o.is_set_bits f k,
          o.is_set_bits f l,
          nonzero-either w (bits f) k l,
        )
        refl

  -- A bit after `set` and after `clear`.
  pub is_set-set :
      (f : Flags) (m : Mask) (n : ℕ) → n < w → is_set (set f m) (bit n) ≡ (is_set f (bit n) || m n)
  is_set-set f m n h = rw (is_set-bit (set f m) n h, is_set-bit f n h, o.bits_set f m n h) refl

  pub is_set-clear :
      (f : Flags) (m : Mask) (n : ℕ)
      → n < w
      → is_set (clear f m) (bit n) ≡ (is_set f (bit n) && not (m n))
  is_set-clear f m n h =
      rw (is_set-bit (clear f m) n h, is_set-bit f n h, o.bits_clear f m n h) refl

  pub is_set-cleared : (n : ℕ) → n < w → is_set o.cleared (bit n) ≡ false
  is_set-cleared n h = is_set-bit o.cleared n h ∙ o.bits_cleared n h
