-- ===== src/Lsq/Ownership.antt =====
-- A request of the queue is freed once, when its last work ends. Code: src/cpu/o3/lsq.hh.
use patch_tectreee.Base.{
  ℕ, ◌≡◌, refl, true, false, not, ◌&&◌, none, some, arith, ◌⊎◌, inl, inr, List, [], ◌∷◌, replicate,
  zero, suc, ap, sym, ◌∙◌, ◌-◌,
}
use patch_tectreee.Base.Outcome.{Outcome, ok, abort, ◌>>=◌}
use patch_tectreee.Request.State.{RequestPlatform}
use patch_tectreee.Lsq.Platform.{LsqPlatform}
use patch_tectreee.Lsq.State.{Inst, LsqRequest, is_any_outstanding_request, is_released}
use patch_tectreee.Lsq.Release.{
  Reason, Left, destroy, release, packet_replied, writeback_scheduled, writeback_done,
  squash_translation,
}

-- What happens to a request after its translation was started.
pub data Event : Type 0 where
  released : Reason → Event
  replied scheduled written squashed : Event

module _ (q : RequestPlatform) (l : LsqPlatform) where
  -- `squashed` is the path of `SingleDataRequest::finish` for a squashed instruction.
  unfoldable pub step : Event → LsqRequest q l → Inst q l → Outcome (Left q l)
  step (released reason) r inst = release q l reason r inst
  step replied r inst = packet_replied q l r inst
  step scheduled r inst = writeback_scheduled q l r inst
  step written r inst = writeback_done q l r inst
  step squashed r inst = squash_translation q l (record r { num_in_translation_fragments = 0 }) inst

  -- A request whose entry is gone still has work outstanding: it is freed no later than that ends.
  abbrev pub IsOwned : LsqRequest q l → Type 0
  IsOwned r = is_released q l r ≡ true → is_any_outstanding_request q l r ≡ true

  -- A sequence of events; one that befalls a request that was deleted is a fault.
  unfoldable pub run : List Event → Left q l → Outcome (Left q l)
  run [] s = ok s
  run (e ∷ es) (none, inst) = abort
  run (e ∷ es) (some r, inst) = step e r inst >>= run es

  step-IsOwned :
      (e : Event) (r r' : LsqRequest q l) (inst inst' : Inst q l)
      → IsOwned r
      → step e r inst ≡ ok (some r', inst')
      → IsOwned r'
  unfolding step release packet_replied writeback_scheduled writeback_done squash_translation
      destroy is_released is_any_outstanding_request
  step-IsOwned (released Reason.lsq_entry_freed) r r' inst inst' o h = λ k. ground arith
  step-IsOwned (released Reason.discarded) r r' inst inst' o h = λ k. ground arith
  step-IsOwned replied r r' inst inst' o h = λ k. ground arith
  step-IsOwned scheduled r r' inst inst' o h = λ k. ground arith
  step-IsOwned written r r' inst inst' o h = λ k. ground arith
  step-IsOwned squashed r r' inst inst' o h = λ k. ground arith

  pub Left-cases :
      (o : Outcome (Left q l))
      → (o ≡ abort)
        ⊎ (((i : Inst q l) × (o ≡ ok (none, i)))
            ⊎ ((r : LsqRequest q l) × (i : Inst q l) × (o ≡ ok (some r, i))))
  Left-cases abort = inl refl
  Left-cases (ok (none, i)) = inr (inl (i, refl))
  Left-cases (ok (some r, i)) = inr (inr (r, i, refl))

  -- A deleted request is in no event.
  run-none :
      (es : List Event) (r : LsqRequest q l) (i i' : Inst q l)
      → run es (none, i) ≡ ok (some r, i')
      → ⊥
  unfolding run
  run-none [] r i i' h = ground arith
  run-none (e ∷ es) r i i' h = ground arith

  -- Whatever happens to a request whose entry is held or that has work outstanding, as long as no
  -- assertion stops the run: if the request is left, its entry is held or it has work outstanding.
  pub run-IsOwned :
      (es : List Event) (r r' : LsqRequest q l) (inst inst' : Inst q l)
      → IsOwned r
      → run es (some r, inst) ≡ ok (some r', inst')
      → IsOwned r'
  unfolding run
  run-IsOwned [] r r' inst inst' o h = ground (arith, o)
  run-IsOwned (e ∷ es) r r' inst inst' o h = elim (Left-cases (step e r inst)) [
    | inl stop ↦ absurd (ground (arith, stop, h))
    | inr (inl (i, gone)) ↦ absurd (run-none es r' i inst' (ap (λ o. o >>= run es) (sym gone) ∙ h))
    | inr (inr (r1, i, left)) ↦
        run-IsOwned es r1 r' i inst' (step-IsOwned e r r1 inst i o left)
          (ap (λ o. o >>= run es) (sym left) ∙ h)
  ]

  -- No write-back is awaited.
  abbrev pub IsWritten : LsqRequest q l → Type 0
  IsWritten r = (r.flags.writeback_scheduled && not r.flags.writeback_done) ≡ false

  step-replied :
      (k : ℕ) (r : LsqRequest q l) (inst : Inst q l)
      → r.num_outstanding_packets ≡ suc (suc k)
      → step replied r inst ≡ ok (some (record r { num_outstanding_packets = suc k }), inst)
  unfolding step packet_replied
  step-replied k r inst out =
      let less : r.num_outstanding_packets - 1 ≡ suc k = omega (arith, out) in
      ground (arith, out, less)

  -- A request whose entry is gone and that waits for `k + 1` replies and for nothing else is deleted
  -- by the last of them.
  pub run-replied :
      (k : ℕ) (r : LsqRequest q l) (inst : Inst q l)
      → is_released q l r ≡ true
      → r.num_outstanding_packets ≡ suc k
      → r.num_in_translation_fragments ≡ 0
      → IsWritten r
      → run (replicate (suc k) replied) (some r, inst)
        ≡ ok (none, record inst { has_saved_request = false })
  unfolding run step packet_replied destroy is_released is_any_outstanding_request
  run-replied zero r inst rel out tr w = ground (arith, rel, out, tr, w)
  run-replied (suc k) r inst rel out tr w =
      let r1 : LsqRequest q l = record r { num_outstanding_packets = suc k } in
      ap (λ o. o >>= run (replicate (suc k) replied)) (step-replied k r inst out)
      ∙ run-replied k r1 inst rel refl tr w
