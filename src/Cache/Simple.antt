-- ===== src/Cache/Simple.antt =====
-- A concrete platform: 64-byte lines, the index bits by shift and mask, and a policy that evicts the
-- first candidate. It shows that the laws of Platform can be met, and runs the tests of the cache
-- of src/mem/ruby/structures/CacheMemory.cc.
use native.Mathlib.Nat.{pow-suc}
use patch_tectreee.Base.{
  ℕ, zero, suc, ◌+◌, ◌-◌, ◌*◌, ◌/◌, ◌%◌, ◌^◌, ◌<◌, ◌≤◌, ◌≡◌, refl, inl, inr, Bool-cases, true,
  false, ◌==◌, ==_refl, none, some, List, [], ◌∷◌, arith, ltb,
}
use patch_tectreee.Ruby.{AccessPermission}
use patch_tectreee.Cache.Platform.{Platform}

pow_pos : (k : ℕ) → 0 < 2 ^ k
pow_pos zero = omega arith
pow_pos (suc k) = omega (arith, pow_pos k, pow-suc 2 k)

abbrev pub log2_fuel : ℕ → ℕ → ℕ
log2_fuel zero n = 0
log2_fuel (suc f) n = elim (ltb n 2) [ true ↦ 0 | false ↦ suc (log2_fuel f (n / 2)) ]

step : (f n : ℕ) → ltb n 2 ≡ false → log2_fuel (suc f) n ≡ suc (log2_fuel f (n / 2))
step f n h = ground (arith, h)

pub log2_fuel_bound : (f n : ℕ) → 0 < n → 2 ^ log2_fuel f n ≤ n
log2_fuel_bound zero n h = omega arith
log2_fuel_bound (suc f) n h = elim (Bool-cases (ltb n 2)) [
  | inl small ↦ ground (arith, small)
  | inr large ↦
      let half : 2 ^ log2_fuel f (n / 2) ≤ n / 2 =
        log2_fuel_bound f (n / 2) (ground (arith, large)) in
      let doubled = pow-suc 2 (log2_fuel f (n / 2)) in
      rw (step f n large) (omega (arith, half, doubled))
]

pub line_idem : (a : ℕ) → a / 64 * 64 / 64 * 64 ≡ a / 64 * 64
line_idem a = omega arith

pub bits_bound : (a lo hi : ℕ) → lo ≤ hi → a / 2 ^ lo % 2 ^ (hi + 1 - lo) < 2 ^ (hi + 1 - lo)
bits_bound a lo hi h = grind (arith, pow_pos (hi + 1 - lo))

-- The policy: how many handles it has given out, and what it was told last.
abbrev pub simple : Platform
simple = record {
  Block = ℕ;
  Policy = ℕ × List ℕ;
  make_line_address = λ a. a / 64 * 64;
  bit_select = λ a lo hi. a / 2 ^ lo % 2 ^ (hi + 1 - lo);
  floor_log2 = log2_fuel 32;
  make_line_address_idem = line_idem;
  bit_select_bound = bits_bound;
  floor_log2_bound = log2_fuel_bound 32;
  instantiate_entry = λ s. (s.0, (suc s.0, s.1));
  touch = λ h s. (s.0, h ∷ s.1);
  touch_occupancy = λ h n s. (s.0, h ∷ s.1);
  reset = λ h s. (s.0, h ∷ s.1);
  invalidate = λ h s. s;
  get_victim =
      λ s es. elim es [ [] ↦ record { set = 0; way = 0; replacement_data = 0 } | e ∷ _ ↦ e ];
  get_victim_candidate = λ s e es. inl refl;
  lock = λ c l. some c;
  unlock = λ l. none;
  holds = λ l c. elim l [ none ↦ false | some d ↦ d == c ];
  holds_lock = λ l c. ==_refl c;
  holds_unlock = λ l c. refl;
  holds_none = λ c. refl;
  invalidate_entry = λ m b. (AccessPermission.invalid, b);
  invalidate_entry_present = λ m b h. refl;
}
