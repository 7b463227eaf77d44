-- ===== src/Request/Accessors.antt =====
-- What is written to a request is read back. Code: the accessors of src/mem/request.hh.
use patch_tectreee.Request.Query.{is_htm_abort}
use patch_tectreee.Base.{
  ℕ, ◌+◌, ◌≤◌, ◌<◌, ◌^◌, ◌≡◌, refl, ◌∙◌, true, ◌||◌, ◌==◌, arith, Bool-cases, if◌then◌else◌,
}
use patch_tectreee.Base.Outcome.{ok, abort}
use patch_tectreee.Request.Masks.{bit}
use patch_tectreee.Request.State.{
  RequestPlatform, Request, is_valid, set_paddr, set_context, set_stream_id, has_flag,
  set_substream_id,
}
use patch_tectreee.Request.Access.{
  get_paddr, has_paddr, get_inst_count, has_inst_count, set_inst_count, get_extra_data,
  extra_data_valid, set_extra_data, get_context_id, has_context_id, get_stream_id, has_stream_id,
  set_pc, get_pc, has_pc, set_req_inst_seq_num, get_req_inst_seq_num, has_inst_seq_num,
  set_translate_latency, set_access_latency, set_htm_abort_cause, get_htm_abort_cause,
  has_htm_abort_cause, get_substream_id, has_substream_id,
}
use patch_tectreee.Request.Bits.{is_set-set}

module _ (q : RequestPlatform) where
  open q use {word, ContextId, HtmFailureFaultCause}

  -- The fields of `v` that are valid are those of `r` and the one with the bit `n`.
  abbrev pub AlsoValid : Request q → Request q → ℕ → Type 0
  AlsoValid r v n = (i : ℕ) → i < 16 → is_valid q v (bit i) ≡ (is_valid q r (bit i) || (i == n))

  marked :
      (r : Request q) (n : ℕ)
      → n < 16
      → (word 16).is_set ((word 16).set r.private_flags (bit n)) (bit n) ≡ true
  marked r n h =
      is_set-set 16 (word 16) r.private_flags (bit n) n h
      ∙ ground (arith, Bool-cases (is_valid q r (bit n)))

  -- Each setter of an optional field makes that field and no other valid, and its accessor then
  -- gives what was set. Those of the substream and of the cause of an abort succeed exactly if the
  -- stream is valid and if the request is an abort.
  pub setters-getters :
      (r : Request q) (x : ℕ) (c : ContextId) (cause : HtmFailureFaultCause)
      → ((get_paddr q (set_paddr q r x) ≡ ok x) × AlsoValid r (set_paddr q r x) 1)
        × ((get_inst_count q (set_inst_count q r x) ≡ ok x) × AlsoValid r (set_inst_count q r x) 11)
        × ((get_extra_data q (set_extra_data q r x) ≡ ok x) × AlsoValid r (set_extra_data q r x) 7)
        × ((get_context_id q (set_context q r c) ≡ ok c) × AlsoValid r (set_context q r c) 5)
        × ((get_stream_id q (set_stream_id q r x) ≡ ok x) × AlsoValid r (set_stream_id q r x) 8)
        × ((get_pc q (set_pc q r x) ≡ ok x) × AlsoValid r (set_pc q r x) 4)
        × ((get_req_inst_seq_num q (set_req_inst_seq_num q r x) ≡ ok x)
            × AlsoValid r (set_req_inst_seq_num q r x) 3)
        × ((v : Request q) × (set_substream_id q r x ≡ (if has_stream_id q r then ok v else abort))
            × (get_substream_id q v ≡ ok x)
            × AlsoValid r v 9)
        × ((v : Request q) × (set_htm_abort_cause q r cause
              ≡ (if is_htm_abort q r then ok v else abort))
            × (get_htm_abort_cause q v ≡ ok cause)
            × AlsoValid r v 10)
  unfolding get_paddr has_paddr set_paddr get_inst_count has_inst_count set_inst_count
      get_extra_data extra_data_valid set_extra_data get_context_id has_context_id set_context
      get_stream_id has_stream_id set_stream_id set_pc get_pc has_pc set_req_inst_seq_num
      get_req_inst_seq_num has_inst_seq_num set_substream_id get_substream_id has_substream_id
      set_htm_abort_cause get_htm_abort_cause has_htm_abort_cause is_htm_abort
  setters-getters r x c cause =
      let also : (n i : ℕ)
          → i < 16
          → (word 16).is_set ((word 16).set r.private_flags (bit n)) (bit i)
            ≡ (is_valid q r (bit i) || (i == n)) =
        λ n i. is_set-set 16 (word 16) r.private_flags (bit n) i in
      (
        (rw (marked r 1 (omega arith)) refl, also 1),
        (rw (marked r 11 (omega arith)) refl, also 11),
        (rw (marked r 7 (omega arith)) refl, also 7),
        (rw (marked r 5 (omega arith)) refl, also 5),
        (rw (marked r 8 (omega arith)) refl, also 8),
        (rw (marked r 4 (omega arith)) refl, also 4),
        (rw (marked r 3 (omega arith)) refl, also 3),
        (
          record r { substream_id = x; private_flags = (word 16).set r.private_flags (bit 9) },
          ground (arith, Bool-cases (is_valid q r (bit 8))),
          rw (marked r 9 (omega arith)) refl,
          also 9,
        ),
        (
          record r {
            htm_abort_cause = cause;
            private_flags = (word 16).set r.private_flags (bit 10);
          },
          ground (arith, Bool-cases (has_flag q r (bit 43))),
          rw (marked r 10 (omega arith)) refl,
          also 10,
        ),
      )

  -- The translation and the access of a request that was started at `start`, translated at `t1` and
  -- answered at `t2`, in this order, take together the ticks from its start.
  pub set_translate_latency-set_access_latency :
      (r : Request q) (t1 t2 : ℕ)
      → r.time ≤ t1
      → t1 ≤ t2
      → t2 < 2 ^ 64
      → (v : Request q) × (v ≡ set_access_latency q (set_translate_latency q r t1) t2)
        × (r.time + v.translate_delta ≡ t1)
        × (t1 + v.access_delta ≡ t2)
        × (v.time ≡ r.time)
  unfolding set_translate_latency set_access_latency
  set_translate_latency-set_access_latency r t1 t2 h1 h2 b =
      (_, refl, omega arith, omega arith, refl)
