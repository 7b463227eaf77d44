-- ===== src/Request/Built.antt =====
-- The requests that the constructors of src/mem/request.hh make.
use patch_tectreee.Base.{
  ℕ, zero, suc, ◌+◌, ◌<◌, ◌^◌, ◌≡◌, refl, ap, ◌∙◌, true, false, ◌||◌, ◌==◌, Option, length,
  replicate, arith, or_true,
}
use patch_tectreee.Base.Outcome.{ok}
use patch_tectreee.Request.Masks.{bit, either_of}
use patch_tectreee.Request.Constants.{valid_context_id, valid_paddr, valid_size}
use patch_tectreee.Request.State.{
  RequestPlatform, Request, is_valid, has_flag, empty_request, set_context, set_virt,
  virtual_request, physical_request,
}
use patch_tectreee.Request.Access.{
  has_vaddr, has_paddr, get_context_id, has_context_id, get_vaddr, get_size, has_size, get_paddr,
  is_masked, has_disabled, has_pc, get_pc,
}
use patch_tectreee.Request.Bits.{is_set-set, is_set-cleared}
use patch_tectreee.Request.Virtual.{virt, made_valid, made_invalid}
use patch_tectreee.Request.Split.{IsUntranslated}

length-replicate {ℓ} : {A : Type ℓ} (n : ℕ) (a : A) → length (replicate n a) ≡ n
length-replicate zero a = refl
length-replicate (suc n) a = ap suc (length-replicate n a)

module _ (q : RequestPlatform) where
  open q use {word, ContextId, AtomicOpFunctor}

  has_disabled-replicate : (n : ℕ) → has_disabled q (replicate n true) ≡ false
  unfolding has_disabled
  has_disabled-replicate zero = refl
  has_disabled-replicate (suc n) = has_disabled-replicate n

  -- The constructor for a virtual address, where the bytes fit the size and the address space, makes
  -- an untranslated request of the given address, size, program counter and context, of which no
  -- byte is masked.
  pub virtual_request-IsUntranslated :
      (now a size : ℕ) (f : (word 64).Flags) (id pc : ℕ) (c : ContextId)
      (op : Option AtomicOpFunctor)
      → size < 2 ^ 32
      → a + size < 2 ^ 64
      → (r : Request q) × (r ≡ virtual_request q now a size f id pc c op)
        × IsUntranslated q r
        × (get_vaddr q r ≡ ok a)
        × (get_size q r ≡ ok size)
        × (get_pc q r ≡ ok pc)
        × (get_context_id q r ≡ ok c)
        × (is_masked q r ≡ false)
  unfolding virtual_request set_context set_virt get_vaddr get_size get_context_id has_context_id
      is_masked has_vaddr has_paddr has_size has_pc get_pc
  virtual_request-IsUntranslated now a size f id pc c op h b =
      let v = virt q (empty_request q) now a size id pc f op in
      let kept : (n : ℕ)
          → n < 16
          → is_valid q (set_context q v c) (bit n) ≡ (is_valid q v (bit n) || (n == 5)) =
        is_set-set 16 (word 16) v.private_flags valid_context_id in
      let valid : (n : ℕ)
          → n < 16
          → is_valid q v (bit n) ≡ true
          → is_valid q (set_context q v c) (bit n) ≡ true =
        λ n l e. rw (kept n l, e) refl in
      let made = made_valid q (empty_request q) now a size id pc f op in
      let virtual = valid 2 (omega arith) (made 2 (omega arith) refl) in
      (
        _,
        refl,
        record {
          virtual = virtual;
          not_physical =
              rw
                (
                  kept 1 (omega arith),
                  made_invalid q (empty_request q) now a size id pc f op 1 (omega arith) refl refl,
                )
                refl;
          byte_enables = length-replicate size true;
          size_bound = h;
          end_bound = b;
        },
        rw virtual refl,
        rw (valid 0 (omega arith) (made 0 (omega arith) refl)) refl,
        rw (valid 4 (omega arith) (made 4 (omega arith) refl)) refl,
        rw (kept 5 (omega arith), or_true (is_valid q v (bit 5))) refl,
        has_disabled-replicate size,
      )

  -- The constructor for a physical address makes a request of the given address and size with no
  -- virtual address, of which no byte is masked, with exactly the flags asked for.
  pub physical_request-get_paddr :
      (now a size : ℕ) (f : (word 64).Flags) (id : ℕ)
      → (r : Request q) × (r ≡ physical_request q now a size f id)
        × (get_paddr q r ≡ ok a)
        × (get_size q r ≡ ok size)
        × (has_vaddr q r ≡ false)
        × (is_masked q r ≡ false)
        × ((n : ℕ) → n < 64 → has_flag q r (bit n) ≡ (word 64).bits f n)
  unfolding physical_request get_paddr get_size has_vaddr has_paddr has_size is_masked
  physical_request-get_paddr now a size f id =
      let o = word 16 in
      let set_bits : (n : ℕ)
          → n < 16
          → o.is_set (o.set o.cleared (either_of valid_paddr valid_size)) (bit n)
            ≡ either_of valid_paddr valid_size n =
        λ n l.
          is_set-set 16 o o.cleared (either_of valid_paddr valid_size) n l
          ∙ rw (is_set-cleared 16 o n l) refl in
      (
        _,
        refl,
        rw (set_bits 1 (omega arith)) refl,
        rw (set_bits 0 (omega arith)) refl,
        set_bits 2 (omega arith),
        has_disabled-replicate size,
        λ n l.
            is_set-set 64 (word 64) (word 64).cleared ((word 64).bits f) n l
            ∙ rw (is_set-cleared 64 (word 64) n l) refl,
      )
