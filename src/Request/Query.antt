-- ===== src/Request/Query.antt =====
-- What the flags of a request say of it, and requests for memory management: src/mem/request.hh.
use patch_tectreee.Base.{ℕ, Bool, ◌||◌}
use patch_tectreee.Base.Outcome.{Outcome, ok, ◌>>◌, assert}
use patch_tectreee.Request.Masks.{Mask, either_of, both_of}
use patch_tectreee.Request.Constants.{
  inst_fetch, uncacheable, strict_order, privileged, locked_rmw, llsc, mem_swap, mem_swap_cond,
  read_modify_write, prefetch, pf_exclusive, acquire, release, atomic_return_op,
  atomic_no_return_op, kernel, secure, pt_walk, invalidate, clean, dst_pou, dst_poc, htm_start,
  htm_commit, htm_cancel, htm_abort, tlbi, tlbi_sync, tlbi_ext_sync, tlbi_ext_sync_comp, dst_bits,
  flush_l2, slc_bit, glc_bit, inv_l1,
}
use patch_tectreee.Request.State.{RequestPlatform, Request, has_flag, empty_request}

module _ (q : RequestPlatform) where
  open q use {word}

  -- `_cacheCoherenceFlags.isSet(mask)`.
  abbrev pub has_coherence_flag : Request q → Mask → Bool
  has_coherence_flag r m = (word 64).is_set r.cache_coherence_flags m

  unfoldable pub is_uncacheable : Request q → Bool
  is_uncacheable r = has_flag q r uncacheable

  unfoldable pub is_strictly_ordered : Request q → Bool
  is_strictly_ordered r = has_flag q r strict_order

  unfoldable pub is_inst_fetch : Request q → Bool
  is_inst_fetch r = has_flag q r inst_fetch

  unfoldable pub is_prefetch : Request q → Bool
  is_prefetch r = has_flag q r (either_of prefetch pf_exclusive)

  unfoldable pub is_prefetch_ex : Request q → Bool
  is_prefetch_ex r = has_flag q r pf_exclusive

  unfoldable pub is_llsc : Request q → Bool
  is_llsc r = has_flag q r llsc

  unfoldable pub is_priv : Request q → Bool
  is_priv r = has_flag q r privileged

  unfoldable pub is_locked_rmw : Request q → Bool
  is_locked_rmw r = has_flag q r locked_rmw

  unfoldable pub is_swap : Request q → Bool
  is_swap r = has_flag q r (either_of mem_swap mem_swap_cond)

  unfoldable pub is_cond_swap : Request q → Bool
  is_cond_swap r = has_flag q r mem_swap_cond

  unfoldable pub is_read_modify_write : Request q → Bool
  is_read_modify_write r = has_flag q r (either_of locked_rmw read_modify_write)

  unfoldable pub is_secure : Request q → Bool
  is_secure r = has_flag q r secure

  unfoldable pub is_pt_walk : Request q → Bool
  is_pt_walk r = has_flag q r pt_walk

  unfoldable pub is_release : Request q → Bool
  is_release r = has_flag q r release

  unfoldable pub is_kernel : Request q → Bool
  is_kernel r = has_flag q r kernel

  unfoldable pub is_atomic_return : Request q → Bool
  is_atomic_return r = has_flag q r atomic_return_op

  unfoldable pub is_atomic_no_return : Request q → Bool
  is_atomic_no_return r = has_flag q r atomic_no_return_op

  unfoldable pub is_htm_start : Request q → Bool
  is_htm_start r = has_flag q r htm_start

  unfoldable pub is_htm_commit : Request q → Bool
  is_htm_commit r = has_flag q r htm_commit

  unfoldable pub is_htm_cancel : Request q → Bool
  is_htm_cancel r = has_flag q r htm_cancel

  unfoldable pub is_htm_abort : Request q → Bool
  is_htm_abort r = has_flag q r htm_abort

  unfoldable pub is_htm_cmd : Request q → Bool
  is_htm_cmd r = is_htm_start r || is_htm_commit r || is_htm_cancel r || is_htm_abort r

  unfoldable pub is_tlbi : Request q → Bool
  is_tlbi r = has_flag q r tlbi

  unfoldable pub is_tlbi_sync : Request q → Bool
  is_tlbi_sync r = has_flag q r tlbi_sync

  unfoldable pub is_tlbi_ext_sync : Request q → Bool
  is_tlbi_ext_sync r = has_flag q r tlbi_ext_sync

  unfoldable pub is_tlbi_ext_sync_comp : Request q → Bool
  is_tlbi_ext_sync_comp r = has_flag q r tlbi_ext_sync_comp

  unfoldable pub is_tlbi_cmd : Request q → Bool
  is_tlbi_cmd r = is_tlbi r || is_tlbi_sync r || is_tlbi_ext_sync r || is_tlbi_ext_sync_comp r

  unfoldable pub is_mem_mgmt : Request q → Bool
  is_mem_mgmt r = is_tlbi_cmd r || is_htm_cmd r

  unfoldable pub is_atomic : Request q → Bool
  is_atomic r = has_flag q r atomic_return_op || has_flag q r atomic_no_return_op

  unfoldable pub is_to_pou : Request q → Bool
  is_to_pou r = has_flag q r dst_pou

  unfoldable pub is_to_poc : Request q → Bool
  is_to_poc r = has_flag q r dst_poc

  unfoldable pub get_dest : Request q → (word 64).Flags
  get_dest r = (word 64).set (word 64).cleared (both_of ((word 64).bits r.flags) dst_bits)

  unfoldable pub is_acquire : Request q → Bool
  is_acquire r = has_coherence_flag r acquire

  unfoldable pub is_glc_set : Request q → Bool
  is_glc_set r = has_coherence_flag r glc_bit

  unfoldable pub is_slc_set : Request q → Bool
  is_slc_set r = has_coherence_flag r slc_bit

  unfoldable pub is_inv_l1 : Request q → Bool
  is_inv_l1 r = has_coherence_flag r inv_l1

  unfoldable pub is_gl2_cache_flush : Request q → Bool
  is_gl2_cache_flush r = has_coherence_flag r flush_l2

  unfoldable pub is_cache_clean : Request q → Bool
  is_cache_clean r = has_flag q r clean

  unfoldable pub is_cache_invalidate : Request q → Bool
  is_cache_invalidate r = has_flag q r invalidate

  unfoldable pub is_cache_maintenance : Request q → Bool
  is_cache_maintenance r = has_flag q r (either_of clean invalidate)

  unfoldable pub create_mem_management : ℕ → (word 64).Flags → ℕ → Outcome (Request q)
  create_mem_management now flags id =
      let mgmt_req = record (empty_request q) {
        flags = (word 64).set (word 64).cleared ((word 64).bits flags);
        requestor_id = id;
        time = now;
      } in
      assert (is_mem_mgmt mgmt_req) >> ok mgmt_req
