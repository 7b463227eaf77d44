-- ===== src/Request/Virtual.antt =====
-- A request that is prepared for a virtual address. Code: `setVirt` of src/mem/request.hh.
use patch_tectreee.Base.{
  ℕ, ◌<◌, ◌≡◌, ◌≢◌, refl, ◌∙◌, true, false, not, ◌&&◌, ◌||◌, Option, arith, Bool-cases, ==-ne,
  and_true, and_false, or_false,
}
use patch_tectreee.Base.Outcome.{ok}
use patch_tectreee.Request.Masks.{Mask, bit, either_of, none_of}
use patch_tectreee.Request.Constants.{
  sticky_flags, sticky_private_flags, valid_vaddr, valid_size, valid_pc,
}
use patch_tectreee.Request.State.{RequestPlatform, Request, is_valid, has_flag, set_virt}
use patch_tectreee.Request.Access.{
  get_vaddr, get_size, get_pc, get_time, get_context_id, has_paddr, has_vaddr, has_size, has_pc,
  extra_data_valid, has_stream_id, has_substream_id, has_inst_seq_num, has_htm_abort_cause,
  has_inst_count, has_context_id, is_local_access,
}
use patch_tectreee.Request.Query.{is_inst_fetch}
use patch_tectreee.Request.Bits.{is_set-set, is_set-clear}

abbrev pub prepared_bits : Mask
prepared_bits = either_of valid_vaddr (either_of valid_size valid_pc)

module _ (q : RequestPlatform) where
  open q use {word, AtomicOpFunctor}

  -- `v` is the request `r` prepared for the virtual address `a`: the address, size, program counter
  -- and time are readable, nothing else but the context is, and of the flags only the fetch flag
  -- outlives the reuse.
  pub record IsPrepared (r v : Request q) (now a size pc : ℕ) (f : (word 64).Flags) : Type 0 where
    pub vaddr_read : get_vaddr q v ≡ ok a
    pub size_read : get_size q v ≡ ok size
    pub pc_read : get_pc q v ≡ ok pc
    pub time_read : get_time q v ≡ ok now
    pub context_kept : get_context_id q v ≡ get_context_id q r
    pub no_paddr : has_paddr q v ≡ false
    pub no_extra_data : extra_data_valid q v ≡ false
    pub no_stream_id : has_stream_id q v ≡ false
    pub no_substream_id : has_substream_id q v ≡ false
    pub no_inst_seq_num : has_inst_seq_num q v ≡ false
    pub no_htm_abort_cause : has_htm_abort_cause q v ≡ false
    pub no_inst_count : has_inst_count q v ≡ false
    pub not_local : is_local_access q v ≡ false
    pub fetch_flag : is_inst_fetch q v ≡ (is_inst_fetch q r || (word 64).bits f 8)
    pub other_flags : (n : ℕ) → n < 64 → n ≢ 8 → has_flag q v (bit n) ≡ (word 64).bits f n

  module _ (r : Request q) (now a size id pc : ℕ) (f : (word 64).Flags)
      (op : Option AtomicOpFunctor) where
    abbrev pub virt : Request q
    virt = set_virt q r now a size f id pc op

    valid_bits :
        (n : ℕ)
        → n < 16
        → is_valid q virt (bit n)
          ≡ ((is_valid q r (bit n) && not (none_of sticky_private_flags n)) || prepared_bits n)
    unfolding set_virt
    valid_bits n h =
        is_set-set 16 (word 16) ((word 16).clear r.private_flags (none_of sticky_private_flags))
          prepared_bits n h
        ∙ rw (is_set-clear 16 (word 16) r.private_flags (none_of sticky_private_flags) n h) refl

    flag_bits :
        (n : ℕ)
        → n < 64
        → has_flag q virt (bit n)
          ≡ ((has_flag q r (bit n) && not (none_of sticky_flags n)) || (word 64).bits f n)
    unfolding set_virt
    flag_bits n h =
        is_set-set 64 (word 64) ((word 64).clear r.flags (none_of sticky_flags)) ((word 64).bits f)
          n h
        ∙ rw (is_set-clear 64 (word 64) r.flags (none_of sticky_flags) n h) refl

    -- A field that `setVirt` makes valid, and one that it makes invalid.
    pub made_valid : (n : ℕ) → n < 16 → prepared_bits n ≡ true → is_valid q virt (bit n) ≡ true
    made_valid n h b =
        valid_bits n h
        ∙ ground
            (arith, b, Bool-cases (is_valid q r (bit n) && not (none_of sticky_private_flags n)))

    pub made_invalid :
        (n : ℕ)
        → n < 16
        → prepared_bits n ≡ false
        → none_of sticky_private_flags n ≡ true
        → is_valid q virt (bit n) ≡ false
    made_invalid n h b s = valid_bits n h ∙ ground (arith, b, s, Bool-cases (is_valid q r (bit n)))

    -- `setVirt` prepares the request for a virtual address: afterwards that address, the size, the
    -- program counter and the time are read back, the context is as before, every other field is
    -- invalid, the request is no local access, the fetch flag is set if it was or is asked for, and
    -- every other flag is as asked for.
    pub set_virt-IsPrepared : IsPrepared r virt now a size pc f
    unfolding set_virt get_vaddr get_size get_pc get_time get_context_id has_paddr has_vaddr
        has_size has_pc extra_data_valid has_stream_id has_substream_id has_inst_seq_num
        has_htm_abort_cause has_inst_count has_context_id is_local_access is_inst_fetch
    set_virt-IsPrepared = record {
      vaddr_read = rw (made_valid 2 (omega arith) refl) refl;
      size_read = rw (made_valid 0 (omega arith) refl) refl;
      pc_read = rw (made_valid 4 (omega arith) refl) refl;
      time_read = rw (made_valid 2 (omega arith) refl, made_invalid 1 (omega arith) refl refl) refl;
      context_kept =
          rw (valid_bits 5 (omega arith))
            (rw (or_false (is_valid q r (bit 5) && true), and_true (is_valid q r (bit 5))) refl);
      no_paddr = made_invalid 1 (omega arith) refl refl;
      no_extra_data = made_invalid 7 (omega arith) refl refl;
      no_stream_id = made_invalid 8 (omega arith) refl refl;
      no_substream_id = made_invalid 9 (omega arith) refl refl;
      no_inst_seq_num = made_invalid 3 (omega arith) refl refl;
      no_htm_abort_cause = made_invalid 10 (omega arith) refl refl;
      no_inst_count = made_invalid 11 (omega arith) refl refl;
      not_local = refl;
      fetch_flag = flag_bits 8 (omega arith) ∙ rw (and_true (has_flag q r (bit 8))) refl;
      other_flags =
          λ n h other. flag_bits n h ∙ rw (==-ne n 8 other, and_false (has_flag q r (bit n))) refl;
    }
