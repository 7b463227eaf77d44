-- ===== src/Lsq/Lines.antt =====
-- The lines of `k` bytes that an access crosses, counted from its address and its size.
use patch_tectreee.Base.{
  ℕ, zero, suc, ◌+◌, ◌-◌, ◌*◌, ◌/◌, ◌%◌, ◌≤◌, ◌<◌, ◌≡◌, sym, ap, ◌∙◌, arith, inl, inr, ◌⊎◌,
}
use native.Mathlib.Nat.{
  suc-mul, add-mul, one-mul, mul-le-mul_right, div-add-mod', mod-lt, add-mul-div_right,
  le-mul_of_pos_right,
}

le-or-lt : (m n : ℕ) → (m ≤ n) ⊎ (n < m)
le-or-lt zero n = inl (omega arith)
le-or-lt (suc m) zero = inr (omega arith)
le-or-lt (suc m) (suc n) = elim (le-or-lt m n) [
  | inl h ↦ inl (omega arith)
  | inr h ↦ inr (omega arith)
]

-- An access of `size` bytes at `a` that leaves its first line: `first_end` ends that line, and
-- `whole` whole lines end where the last piece starts.
pub record Crossing (k a size : ℕ) : Type 0 where
  pub first : ℕ
  pub whole : ℕ
  pub next_addr : (a + k) / k * k ≡ suc first * k
  pub final_addr : (a + size) / k * k ≡ suc first * k + whole * k
  pub final_line : suc first * k + whole * k ≡ (suc first + whole) * k
  pub line_starts : first * k ≤ a
  pub first_end : suc first * k ≡ first * k + k
  pub line_ends : a < suc first * k
  pub whole_ends : suc first * k + whole * k ≤ a + size
  pub tail_fits : a + size < suc first * k + whole * k + k
  pub rounds : whole ≤ whole * k

pub crossing : (k a size : ℕ) → 0 < k → k < a % k + size → Crossing k a size
crossing k a size kp over =
    let d = a / k in
    let a_parts = div-add-mod' a k in
    let a_rest = mod-lt a kp in
    let up = suc-mul d k in
    let n : (a + k) / k ≡ suc d =
      ap (λ (t : ℕ). (a + t) / k) (sym (one-mul k)) ∙ add-mul-div_right a 1 kp ∙ omega arith in
    let end = a + size in
    let f = end / k in
    let e_parts = div-add-mod' end k in
    let e_rest = mod-lt end kp in
    let past : suc d ≤ f = elim (le-or-lt (suc d) f) [
      | inl h ↦ h
      | inr h ↦
          let low : f * k ≤ d * k = mul-le-mul_right k (omega arith) in
          absurd (omega (arith, low, e_parts, e_rest, a_parts, over))
    ] in
    let r = f - suc d in
    let sum : f * k ≡ suc d * k + r * k =
      ap (λ (t : ℕ). t * k) (omega (arith, past)) ∙ add-mul (suc d) r k in
    record {
      first = d;
      whole = r;
      next_addr = ap (λ (t : ℕ). t * k) n;
      final_addr = sum;
      final_line = sym (add-mul (suc d) r k);
      line_starts = omega (arith, a_parts);
      first_end = up;
      line_ends = omega (arith, a_parts, a_rest, up);
      whole_ends = omega (arith, sum, e_parts);
      tail_fits = omega (arith, sum, e_parts, e_rest);
      rounds = le-mul_of_pos_right r kp;
    }
