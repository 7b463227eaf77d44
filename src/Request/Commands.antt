-- ===== src/Request/Commands.antt =====
-- Requests for memory management, and the marks of synchronisation. Code: the flag queries and
-- `createMemManagement` of src/mem/request.hh.
use patch_tectreee.Base.{
  ℕ, ◌<◌, ◌≡◌, refl, sym, ◌∙◌, true, false, arith, if◌then◌else◌, or_true, or_regroup,
}
use patch_tectreee.Base.Outcome.{ok, abort, assert-if}
use patch_tectreee.Request.Masks.{bit, either_of, both_of, nonzero}
use patch_tectreee.Request.Constants.{
  tlbi_cmd, htm_cmd, tlbi, tlbi_sync, tlbi_ext_sync, tlbi_ext_sync_comp, htm_start, htm_commit,
  htm_cancel, htm_abort, acquire, locked_rmw, read_modify_write,
}
use patch_tectreee.Request.State.{RequestPlatform, Request, is_valid, has_flag, empty_request}
use patch_tectreee.Request.Access.{has_address, set_flags}
use patch_tectreee.Request.Query.{
  is_mem_mgmt, is_tlbi_cmd, is_htm_cmd, is_acquire, is_read_modify_write, create_mem_management,
  is_tlbi, is_tlbi_sync, is_tlbi_ext_sync, is_tlbi_ext_sync_comp, is_htm_start, is_htm_commit,
  is_htm_cancel, is_htm_abort,
}
use patch_tectreee.Request.Bits.{is_set-bit, is_set-either, is_set-set, is_set-cleared, nonzero-eq}

module _ (q : RequestPlatform) where
  open q use {word}

  -- A request is a translation-invalidation command if its flags meet the mask of the four, and a
  -- transactional one if they meet the mask of those four.
  is_tlbi_cmd-mask : (r : Request q) → is_tlbi_cmd q r ≡ has_flag q r tlbi_cmd
  unfolding is_tlbi_cmd is_tlbi is_tlbi_sync is_tlbi_ext_sync is_tlbi_ext_sync_comp
  is_tlbi_cmd-mask r =
      let o = word 64 in
      rw
        (
          is_set-either 64 o r.flags tlbi
              (either_of tlbi_sync (either_of tlbi_ext_sync tlbi_ext_sync_comp)),
          is_set-either 64 o r.flags tlbi_sync (either_of tlbi_ext_sync tlbi_ext_sync_comp),
          is_set-either 64 o r.flags tlbi_ext_sync tlbi_ext_sync_comp,
        )
        (or_regroup (o.is_set r.flags tlbi) (o.is_set r.flags tlbi_sync)
          (o.is_set r.flags tlbi_ext_sync) (o.is_set r.flags tlbi_ext_sync_comp))

  is_htm_cmd-mask : (r : Request q) → is_htm_cmd q r ≡ has_flag q r htm_cmd
  unfolding is_htm_cmd is_htm_start is_htm_commit is_htm_cancel is_htm_abort
  is_htm_cmd-mask r =
      let o = word 64 in
      rw
        (
          is_set-either 64 o r.flags htm_start
              (either_of htm_commit (either_of htm_cancel htm_abort)),
          is_set-either 64 o r.flags htm_commit (either_of htm_cancel htm_abort),
          is_set-either 64 o r.flags htm_cancel htm_abort,
        )
        (or_regroup (o.is_set r.flags htm_start) (o.is_set r.flags htm_commit)
          (o.is_set r.flags htm_cancel) (o.is_set r.flags htm_abort))

  -- A request for memory management is one whose flags meet the mask `TLBI_CMD` or `HTM_CMD`.
  pub is_mem_mgmt-mask :
      (r : Request q) → is_mem_mgmt q r ≡ has_flag q r (either_of tlbi_cmd htm_cmd)
  unfolding is_mem_mgmt
  is_mem_mgmt-mask r =
      rw (is_tlbi_cmd-mask r, is_htm_cmd-mask r)
        (sym (is_set-either 64 (word 64) r.flags tlbi_cmd htm_cmd))

  -- `createMemManagement` succeeds exactly if one of the flags asked for is in the mask `TLBI_CMD` or
  -- `HTM_CMD`, and stops at its assertion otherwise; the request has these flags, the requestor and
  -- the time that were given, and no valid field.
  pub create_mem_management-mask :
      (now : ℕ) (f : (word 64).Flags) (id : ℕ)
      → (r : Request q) × (create_mem_management q now f id ≡ (
          if nonzero 64 (both_of ((word 64).bits f) (either_of tlbi_cmd htm_cmd))
          then ok r
          else abort))
        × ((r.requestor_id ≡ id) × (r.time ≡ now))
        × ((n : ℕ) → n < 64 → has_flag q r (bit n) ≡ (word 64).bits f n)
        × ((n : ℕ) → n < 16 → is_valid q r (bit n) ≡ false)
  unfolding create_mem_management
  create_mem_management-mask now f id =
      let o = word 64 in
      let fs = o.set o.cleared (o.bits f) in
      let r : Request q = record (empty_request q) { flags = fs; requestor_id = id; time = now } in
      let same : (n : ℕ) → n < 64 → o.bits fs n ≡ o.bits f n =
        λ n h. rw (o.bits_set o.cleared (o.bits f) n h, o.bits_cleared n h) refl in
      let meets =
        o.is_set_bits fs (either_of tlbi_cmd htm_cmd)
        ∙ nonzero-eq 64 (o.bits fs) (o.bits f) (either_of tlbi_cmd htm_cmd) same in
      (
        r,
        rw (is_mem_mgmt-mask r, meets)
            (assert-if (nonzero 64 (both_of (o.bits f) (either_of tlbi_cmd htm_cmd))) r),
        (refl, refl),
        λ n h. is_set-bit 64 o fs n h ∙ same n h,
        λ n h. is_set-cleared 16 (word 16) n h,
      )

  -- To ask a request that has an address for `ACQUIRE` succeeds and does not change whether it is an
  -- acquire, which is read from another word; it makes the request a read-modify-write.
  pub set_flags-is_acquire :
      (r : Request q)
      → has_address q r ≡ true
      → (v : Request q) × (set_flags q r acquire ≡ ok v)
        × (is_acquire q v ≡ is_acquire q r)
        × (is_read_modify_write q v ≡ true)
  unfolding set_flags is_acquire is_read_modify_write
  set_flags-is_acquire r h =
      let o = word 64 in
      let fs = o.set r.flags acquire in
      (
        record r { flags = fs },
        rw h refl,
        refl,
        is_set-either 64 o fs locked_rmw read_modify_write
            ∙ rw (is_set-set 64 o r.flags acquire 17 (omega arith))
                (rw (or_true (o.is_set r.flags (bit 17)), or_true (o.is_set fs locked_rmw)) refl),
      )
