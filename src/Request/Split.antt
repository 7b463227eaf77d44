-- ===== src/Request/Split.antt =====
-- A request that is split at an address within it. Code: `splitOnVaddr` and the copy constructor of
-- src/mem/request.hh.
use patch_tectreee.Base.{
  ℕ, zero, suc, ◌+◌, ◌-◌, ◌%◌, ◌^◌, ◌≤◌, ◌<◌, ◌≡◌, refl, sym, ap, ◌∙◌, Bool, true, false, ◌||◌,
  none, List, [], ◌∷◌, ◌++◌, length, arith, lt→ltb,
}
use patch_tectreee.Base.Outcome.{ok}
use patch_tectreee.Request.State.{RequestPlatform, Request, copied, from_begin, split_on_vaddr}
use patch_tectreee.Request.Access.{
  has_vaddr, has_paddr, has_pc, get_pc, get_time, has_stream_id, get_stream_id, is_masked,
  has_disabled,
}

has_disabled-append :
    (q : RequestPlatform) (first second : List Bool)
    → has_disabled q (first ++ second) ≡ (has_disabled q first || has_disabled q second)
unfolding has_disabled
has_disabled-append q [] second = refl
has_disabled-append q (true ∷ first) second = has_disabled-append q first second
has_disabled-append q (false ∷ first) second = refl

module _ (q : RequestPlatform) where
  from_begin-append :
      (bytes : List Bool) (n : ℕ)
      → n ≤ length bytes
      → (first second : List Bool) × (from_begin q bytes n ≡ ok (first, second))
        × (first ++ second ≡ bytes)
        × (length first ≡ n)
        × (n + length second ≡ length bytes)
  unfolding from_begin
  from_begin-append bytes zero h = ([], bytes, refl, refl, refl, omega arith)
  from_begin-append [] (suc n) h = absurd (omega arith)
  from_begin-append (b ∷ bytes) (suc n) h =
      let (first, second, run, all, len, rest) = from_begin-append bytes n (omega arith) in
      (b ∷ first, second, rw run refl, ap (λ l. b ∷ l) all, omega (arith, len), omega (arith, rest))

  -- A request with a virtual and no physical address, whose bytes have no wrap-around and an
  -- enable bit each.
  pub record IsUntranslated (r : Request q) : Type 0 where
    pub virtual : has_vaddr q r ≡ true
    pub not_physical : has_paddr q r ≡ false
    pub byte_enables : length r.byte_enable ≡ r.size
    pub size_bound : r.size < 2 ^ 32
    pub end_bound : r.vaddr + r.size < 2 ^ 64

  -- `r1` and `r2` are the parts of `r` before and from the address `s`.
  pub record IsSplit (r : Request q) (s : ℕ) (r1 r2 : Request q) : Type 0 where
    pub first_IsUntranslated : IsUntranslated r1
    pub second_IsUntranslated : IsUntranslated r2
    pub first_vaddr : r1.vaddr ≡ r.vaddr
    pub first_end : r1.vaddr + r1.size ≡ s
    pub second_vaddr : r2.vaddr ≡ s
    pub second_end : r2.vaddr + r2.size ≡ r.vaddr + r.size
    pub not_empty : (0 < r1.size) × (0 < r2.size)
    pub bytes : r1.byte_enable ++ r2.byte_enable ≡ r.byte_enable
    pub masked : is_masked q r ≡ (is_masked q r1 || is_masked q r2)
    pub flags_kept : (r1.flags ≡ r.flags) × (r2.flags ≡ r.flags)
    pub pc_kept : (get_pc q r1 ≡ get_pc q r) × (get_pc q r2 ≡ get_pc q r)
    pub time_kept : (get_time q r1 ≡ get_time q r) × (get_time q r2 ≡ get_time q r)

  -- The two parts that `splitOnVaddr` makes, given the split byte enables.
  abbrev first_part : Request q → ℕ → List Bool → Request q
  first_part r s first = record (copied q r) { size = (s - r.vaddr) % 2 ^ 32; byte_enable = first }

  abbrev second_part : Request q → ℕ → List Bool → Request q
  second_part r s second = record (copied q r) {
    vaddr = s;
    size = (r.size + 2 ^ 32 - (s - r.vaddr) % 2 ^ 32) % 2 ^ 32;
    byte_enable = second;
  }

  split_runs :
      (r : Request q) (s : ℕ) (first second : List Bool)
      → IsUntranslated r
      → r.vaddr < s
      → s < r.vaddr + r.size
      → from_begin q r.byte_enable ((s - r.vaddr) % 2 ^ 32) ≡ ok (first, second)
      → split_on_vaddr q r s ≡ ok (first_part r s first, second_part r s second)
  unfolding split_on_vaddr has_vaddr has_paddr
  split_runs r s first second u above below run =
      let end : (r.vaddr + r.size) % 2 ^ 64 ≡ r.vaddr + r.size = omega (arith, u.end_bound) in
      rw
        (
          u.virtual,
          u.not_physical,
          end,
          lt→ltb r.vaddr s above,
          lt→ltb s (r.vaddr + r.size) below,
          run,
        )
        refl

  parts-IsSplit :
      (r : Request q) (s : ℕ) (first second : List Bool)
      → IsUntranslated r
      → r.vaddr < s
      → s < r.vaddr + r.size
      → first ++ second ≡ r.byte_enable
      → length first ≡ (s - r.vaddr) % 2 ^ 32
      → (s - r.vaddr) % 2 ^ 32 + length second ≡ length r.byte_enable
      → IsSplit r s (first_part r s first) (second_part r s second)
  unfolding copied has_vaddr has_paddr has_pc get_pc get_time is_masked
  parts-IsSplit r s first second u above below all len rest =
      let n : (s - r.vaddr) % 2 ^ 32 ≡ s - r.vaddr = omega (arith, u.size_bound) in
      let m : (r.size + 2 ^ 32 - (s - r.vaddr) % 2 ^ 32) % 2 ^ 32 ≡ r.size - (s - r.vaddr) =
        omega (arith, u.size_bound, n) in
      record {
        first_IsUntranslated = record {
          virtual = u.virtual;
          not_physical = u.not_physical;
          byte_enables = len;
          size_bound = omega arith;
          end_bound = omega (arith, u.end_bound, n);
        };
        second_IsUntranslated = record {
          virtual = u.virtual;
          not_physical = u.not_physical;
          byte_enables = omega (arith, u.byte_enables, rest, n, m);
          size_bound = omega arith;
          end_bound = omega (arith, u.end_bound, m);
        };
        first_vaddr = refl;
        first_end = omega (arith, n);
        second_vaddr = refl;
        second_end = omega (arith, m);
        not_empty = (omega (arith, n), omega (arith, m));
        bytes = all;
        masked = ap (has_disabled q) (sym all) ∙ has_disabled-append q first second;
        flags_kept = (refl, refl);
        pc_kept = (refl, refl);
        time_kept = (refl, refl);
      }

  -- `splitOnVaddr` of an untranslated request at an address strictly within it succeeds: its parts
  -- are untranslated requests with at least a byte each, the first ends and the second starts at
  -- that address, their enable bits together are the original's, one of them is masked if the
  -- original is, and both have its flags, program counter and time.
  pub split_on_vaddr-IsSplit :
      (r : Request q) (s : ℕ)
      → IsUntranslated r
      → r.vaddr < s
      → s < r.vaddr + r.size
      → (r1 r2 : Request q) × (split_on_vaddr q r s ≡ ok (r1, r2)) × IsSplit r s r1 r2
  split_on_vaddr-IsSplit r s u above below =
      let n : (s - r.vaddr) % 2 ^ 32 ≤ length r.byte_enable =
        omega (arith, u.size_bound, u.byte_enables) in
      let (first, second, run, all, len, rest) = from_begin-append r.byte_enable _ n in
      (
        first_part r s first,
        second_part r s second,
        split_runs r s first second u above below run,
        parts-IsSplit r s first second u above below all len rest,
      )

  -- Whether the original is a memory barrier or not, neither part that `splitOnVaddr` makes of an
  -- untranslated request has the mark, as nothing was written to it; and each reads 0 as its stream
  -- where the original has any.
  pub split_on_vaddr-is_mem_barrier :
      (r : Request q) (s : ℕ)
      → IsUntranslated r
      → r.vaddr < s
      → s < r.vaddr + r.size
      → (r1 r2 : Request q) × (split_on_vaddr q r s ≡ ok (r1, r2))
        × (r1.is_mem_barrier ≡ none)
        × (r2.is_mem_barrier ≡ none)
        × (get_stream_id q r1 ≡ get_stream_id q (record r { stream_id = 0 }))
        × (get_stream_id q r2 ≡ get_stream_id q (record r { stream_id = 0 }))
  unfolding copied has_stream_id get_stream_id
  split_on_vaddr-is_mem_barrier r s u above below =
      let n : (s - r.vaddr) % 2 ^ 32 ≤ length r.byte_enable =
        omega (arith, u.size_bound, u.byte_enables) in
      let (first, second, run, all, len, rest) = from_begin-append r.byte_enable _ n in
      (
        first_part r s first,
        second_part r s second,
        split_runs r s first second u above below run,
        refl,
        refl,
        refl,
        refl,
      )
