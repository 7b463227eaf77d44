-- ===== src/Iew/Credits.antt =====
-- Every instruction that rename sent is kept or reported: src/cpu/o3/iew.cc.
use patch_tectreee.Base.{
  ℕ, ◌+◌, ◌≡◌, refl, sym, ap, ◌∙◌, Bool, true, List, [], ◌∷◌, length, length-append, List-cases,
  arith, Bool-cases, inl, inr,
}
use patch_tectreee.Base.Outcome.{Outcome-cases, ok, ◌>>=◌}
use patch_tectreee.Iew.Kept.{IsKept, dispatch_at-kept}
use patch_tectreee.Iew.Stage.{
  StageStatus, IewInst, IewPlatform, ToRename, FromCommit, credit, credit_all, is_blocking, Stage,
  empty_rename_insts, squash, skid_insert, block, unblock, check_stall, on_squash, resume,
  check_signals_and_update,
}
use patch_tectreee.Iew.Dispatch.{source, block_again, issue, issued, dispatch_one, dispatch, cycle}

credit_all-dispatched :
    (is : List IewInst) (t : ToRename) → (credit_all is t).dispatched ≡ t.dispatched + length is
unfolding credit_all credit
credit_all-dispatched [] t = omega arith
credit_all-dispatched (i ∷ is) t = omega (arith, credit_all-dispatched is (credit i t))

module _ (p : IewPlatform) where
  -- The instructions that the stage reported in this cycle or holds.
  abbrev pub total : Stage p → ℕ
  total s = s.to_rename.dispatched + length s.skid_buffer + length s.insts

  -- They are `n`.
  abbrev pub IsTotal : ℕ → Stage p → Type 0
  IsTotal n s = total s ≡ n

  skid_insert-IsTotal :
      (n : ℕ) (s s' : Stage p) → IsTotal n s → skid_insert p s ≡ ok s' → IsTotal n s'
  unfolding skid_insert
  skid_insert-IsTotal n s s' t h = ground (arith, h, t, length-append s.skid_buffer s.insts)

  block-IsTotal : (n : ℕ) (s s' : Stage p) → IsTotal n s → block p s ≡ ok s' → IsTotal n s'
  unfolding block skid_insert
  block-IsTotal n s s' t h =
      ground (
        arith,
        h,
        t,
        length-append s.skid_buffer s.insts,
        Bool-cases (is_blocking s.dispatch_status),
      )

  block_again-IsTotal :
      (n : ℕ) (s s' : Stage p) → IsTotal n s → block_again p s ≡ ok s' → IsTotal n s'
  unfolding block_again
  block_again-IsTotal n s s' t h = elim (Outcome-cases (block p s)) [
    | inl stop ↦ absurd (ground (arith, h, stop))
    | inr (s1, eq) ↦ let kept = block-IsTotal n s s1 t eq in ground (arith, h, eq, kept)
  ]

  unblock-IsTotal : (n : ℕ) (s : Stage p) → IsTotal n s → IsTotal n (unblock p s)
  unfolding unblock
  unblock-IsTotal n s t = ground (arith, t)

  dispatch_one-IsTotal :
      (n : ℕ) (unblocks go_on : Bool) (s s' : Stage p)
      → IsTotal n s
      → dispatch_one p unblocks s ≡ ok (go_on, s')
      → IsTotal n s'
  unfolding dispatch_one credit issued
  dispatch_one-IsTotal n unblocks go_on s s' t h = elim (List-cases (source p unblocks s)) [
    | inl empty ↦ absurd (ground (arith, h, empty))
    | inr (i, is, eq) ↦ elim (Outcome-cases (block_again p s)) [
      | inl stop ↦ elim (Outcome-cases (issue p i s.queues)) [
        | inl no_issue ↦ ground (arith, h, eq, stop, no_issue, t, Bool-cases unblocks)
        | inr (after, issues) ↦ ground (arith, h, eq, stop, issues, t, Bool-cases unblocks)
      ]
      | inr (s1, blocks) ↦
          let kept = block_again-IsTotal n s s1 t blocks in
          elim (Outcome-cases (issue p i s.queues)) [
            | inl no_issue ↦ ground (arith, h, eq, blocks, no_issue, t, kept, Bool-cases unblocks)
            | inr (after, issues) ↦
                ground (arith, h, eq, blocks, issues, t, kept, Bool-cases unblocks)
          ]
    ]
  ]

  IsTotal-IsKept : (n : ℕ) → IsKept p (IsTotal n)
  IsTotal-IsKept n = record {
    after_skid_insert = skid_insert-IsTotal n;
    after_unblock = unblock-IsTotal n;
    after_block_again = block_again-IsTotal n;
    after_dispatch_one = dispatch_one-IsTotal n;
    after_wake = λ s t idle. t;
  }

  empty_rename_insts-total : (s : Stage p) → total (empty_rename_insts p s) ≡ total s
  unfolding empty_rename_insts
  empty_rename_insts-total s = omega (arith, credit_all-dispatched s.insts s.to_rename)

  on_squash-total : (s : Stage p) → total (on_squash p s) ≡ total s
  unfolding on_squash squash empty_rename_insts
  on_squash-total s =
      let skids = credit_all-dispatched s.skid_buffer s.to_rename in
      let rest = credit_all-dispatched s.insts (credit_all s.skid_buffer s.to_rename) in
      ground (arith, skids, rest, Bool-cases (is_blocking s.dispatch_status))

  resume-total : (s : Stage p) → total (resume p s) ≡ total s
  unfolding resume unblock
  resume-total s = ground arith

  check_signals_and_update-total :
      (c : FromCommit) (s s' : Stage p)
      → check_signals_and_update p c s ≡ ok s'
      → total s' ≡ total s
  unfolding check_signals_and_update check_stall
  check_signals_and_update-total c s s' h = elim (Bool-cases c.squash) [
    | inl squashes ↦
        let same : s' ≡ on_squash p s = ground (arith, h, squashes) in
        ap total same ∙ on_squash-total s
    | inr kept ↦ elim (Bool-cases c.rob_squashing) [
      | inl squashing ↦
          let e = empty_rename_insts p s in
          let s1 : Stage p = record e {
            dispatch_status = StageStatus.squashing;
            wrote_to_time_buffer = true;
          } in
          let blocks : block p s1 ≡ ok s' = ground (arith, h, kept, squashing) in
          block-IsTotal (total s) s1 s' (empty_rename_insts-total s) blocks
      | inr idle ↦ elim (Bool-cases (p.iq_full s.queues)) [
        | inl full ↦
            let blocks : block p s ≡ ok s' = ground (arith, h, kept, idle, full) in
            block-IsTotal (total s) s s' refl blocks
        | inr free ↦
            let same : s' ≡ resume p s = ground (arith, h, kept, idle, free) in
            ap total same ∙ resume-total s
      ]
    ]
  ]

  -- A cycle that no assertion stops, with whatever signals from commit and queues however full, loses
  -- and invents no instruction: those reported to rename, in the skid buffer and from rename are as
  -- many as before.
  pub cycle-total :
      (c : FromCommit) (received empty : Bool) (s s' : Stage p)
      → cycle p c received empty s ≡ ok s'
      → total s' ≡ total s
  unfolding cycle dispatch
  cycle-total c received empty s s' h = elim (Outcome-cases (check_signals_and_update p c s)) [
    | inl stop ↦ absurd (ground (arith, h, stop))
    | inr (s1, eq) ↦
        dispatch_at-kept p (IsTotal (total s)) (IsTotal-IsKept (total s)) received empty
          s1.dispatch_status s1 s' (check_signals_and_update-total c s s1 eq)
          (ap (λ o. o >>= dispatch p received empty) (sym eq) ∙ h)
  ]
