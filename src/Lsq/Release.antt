-- ===== src/Lsq/Release.antt =====
-- How a request of the queue is freed: `release`, `packetReplied`, `writebackScheduled`,
-- `writebackDone` and `squashTranslation` of src/cpu/o3/lsq.hh, and the destructor of
-- src/cpu/o3/lsq.cc. A request that was deleted is `none`.
use patch_tectreee.Base.{◌-◌, true, false, not, ◌&&◌, ltb, ◌==◌, if◌then◌else◌, Option, none, some}
use patch_tectreee.Base.Outcome.{Outcome, ok, ◌>>◌, assert}
use patch_tectreee.Request.State.{RequestPlatform}
use patch_tectreee.Lsq.Platform.{LsqPlatform}
use patch_tectreee.Lsq.State.{Flags, Inst, LsqRequest, is_any_outstanding_request, is_released}

pub data Reason : Type 0 where
  lsq_entry_freed discarded : Reason

module _ (q : RequestPlatform) (l : LsqPlatform) where
  -- What is left of a request, and the instruction.
  abbrev pub Left : Type 0
  Left = Option (LsqRequest q l) × Inst q l

  -- `delete this`.
  unfoldable pub destroy : LsqRequest q l → Inst q l → Outcome Left
  destroy r inst = do
    assert (not (is_any_outstanding_request q l r))
    ok (none, record inst { has_saved_request = false })

  abbrev flagged : Reason → Flags → Flags
  flagged lsq_entry_freed f = record f { lsq_entry_freed = true }
  flagged discarded f = record f { discarded = true }

  -- `freeLSQEntry` and `discard`.
  unfoldable pub release : Reason → LsqRequest q l → Inst q l → Outcome Left
  release reason r inst =
      if not (is_any_outstanding_request q l r)
      then destroy r inst
      else ok (some (record r { flags = flagged reason r.flags }), inst)

  unfoldable pub packet_replied : LsqRequest q l → Inst q l → Outcome Left
  packet_replied r inst = do
    assert (ltb 0 r.num_outstanding_packets)
    let r' : LsqRequest q l = record r { num_outstanding_packets = r.num_outstanding_packets - 1 }
    if r'.num_outstanding_packets == 0 && is_released q l r'
        then destroy r' inst
        else ok (some r', inst)

  unfoldable pub writeback_scheduled : LsqRequest q l → Inst q l → Outcome Left
  writeback_scheduled r inst = do
    let f = r.flags
    assert (not f.writeback_scheduled)
    ok (some (record r { flags = record f { writeback_scheduled = true } }), inst)

  unfoldable pub writeback_done : LsqRequest q l → Inst q l → Outcome Left
  writeback_done r inst =
      let f = r.flags in
      let r' : LsqRequest q l = record r { flags = record f { writeback_done = true } } in
      if r'.num_outstanding_packets == 0 && is_released q l r'
      then destroy r' inst
      else ok (some r', inst)

  unfoldable pub squash_translation : LsqRequest q l → Inst q l → Outcome Left
  squash_translation r inst = do
    assert (r.num_in_translation_fragments == 0)
    let f = r.flags
    let r' : LsqRequest q l = record r { flags = record f { translation_squashed = true } }
    if is_released q l r' then destroy r' inst else ok (some r', inst)
