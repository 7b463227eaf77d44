-- ===== src/Iew/Signals.antt =====
-- What the stage `rename` hears of a block: src/cpu/o3/iew.cc.
use patch_tectreee.Base.{
  ◌≡◌, refl, sym, ◌∙◌, Bool, true, false, if◌then◌else◌, List, [], ◌∷◌, arith, Bool-cases, inl, inr,
  List-cases, subst,
}
use patch_tectreee.Base.Outcome.{Outcome-cases, ok}
use patch_tectreee.Iew.Kept.{IsKept}
use patch_tectreee.Iew.Stage.{
  StageStatus, IewInst, IewPlatform, ToRename, FromCommit, credit, credit_all, is_blocking, Stage,
  empty_rename_insts, squash, skid_insert, block, unblock, check_stall, on_squash, resume,
  check_signals_and_update,
}
use patch_tectreee.Iew.Dispatch.{source, block_again, issue, issued, dispatch_one}

-- Whether rename is stalled after it hears of a cycle: an unblock counts over a block.
abbrev pub heard : Bool → ToRename → Bool
heard before t = if t.iew_unblock then false else if t.iew_block then true else before

credit_all-signals :
    (is : List IewInst) (t : ToRename)
    → ((credit_all is t).iew_block ≡ t.iew_block) × ((credit_all is t).iew_unblock ≡ t.iew_unblock)
unfolding credit_all credit
credit_all-signals [] t = (refl, refl)
credit_all-signals (i ∷ is) t = credit_all-signals is (credit i t)

module _ (p : IewPlatform) where
  -- Rename, which was stalled before the cycle or not, is stalled exactly if dispatch is blocked or
  -- unblocking.
  abbrev pub IsTold : Bool → Stage p → Type 0
  IsTold before s = heard before s.to_rename ≡ is_blocking s.dispatch_status

  pub skid_insert-IsTold :
      (before : Bool) (s s' : Stage p)
      → IsTold before s
      → skid_insert p s ≡ ok s'
      → IsTold before s'
  unfolding skid_insert
  skid_insert-IsTold before s s' t h = ground (arith, h, t)

  block_again-IsTold :
      (before : Bool) (s s' : Stage p)
      → IsTold before s
      → block_again p s ≡ ok s'
      → IsTold before s'
  unfolding block_again block skid_insert
  block_again-IsTold before s s' t h =
      ground (arith, h, t, Bool-cases (is_blocking s.dispatch_status))

  pub unblock-IsTold : (before : Bool) (s : Stage p) → IsTold before s → IsTold before (unblock p s)
  unfolding unblock
  unblock-IsTold before s t = ground (arith, t)

  dispatch_one-IsTold :
      (before unblocks go_on : Bool) (s s' : Stage p)
      → IsTold before s
      → dispatch_one p unblocks s ≡ ok (go_on, s')
      → IsTold before s'
  unfolding dispatch_one credit issued
  dispatch_one-IsTold before unblocks go_on s s' t h = elim (List-cases (source p unblocks s)) [
    | inl empty ↦ absurd (ground (arith, h, empty))
    | inr (i, is, eq) ↦ elim (Outcome-cases (block_again p s)) [
      | inl stop ↦ elim (Outcome-cases (issue p i s.queues)) [
        | inl no_issue ↦ ground (arith, h, eq, stop, no_issue, t, Bool-cases unblocks)
        | inr (after, issues) ↦ ground (arith, h, eq, stop, issues, t, Bool-cases unblocks)
      ]
      | inr (s1, blocks) ↦
          let told = block_again-IsTold before s s1 t blocks in
          elim (Outcome-cases (issue p i s.queues)) [
            | inl no_issue ↦ ground (arith, h, eq, blocks, no_issue, t, told, Bool-cases unblocks)
            | inr (after, issues) ↦
                ground (arith, h, eq, blocks, issues, t, told, Bool-cases unblocks)
          ]
    ]
  ]

  pub IsTold-IsKept : (before : Bool) → IsKept p (IsTold before)
  IsTold-IsKept before = record {
    after_skid_insert = skid_insert-IsTold before;
    after_unblock = unblock-IsTold before;
    after_block_again = block_again-IsTold before;
    after_dispatch_one = dispatch_one-IsTold before;
    after_wake = λ s t idle. ground (arith, t, idle);
  }

  -- Nothing was told to rename yet.
  abbrev pub IsFresh : Stage p → Type 0
  IsFresh s = (s.to_rename.iew_block ≡ false) × (s.to_rename.iew_unblock ≡ false)

  empty_rename_insts-signals : (s : Stage p) → IsFresh s → IsFresh (empty_rename_insts p s)
  unfolding empty_rename_insts
  empty_rename_insts-signals s (b, n) =
      let same = credit_all-signals s.insts s.to_rename in (same.0 ∙ b, same.1 ∙ n)

  squash-signals : (s : Stage p) → IsFresh s → IsFresh (squash p s)
  unfolding squash
  squash-signals s (b, n) =
      let same = credit_all-signals s.skid_buffer s.to_rename in
      empty_rename_insts-signals
        (record s {
          queues = p.ldst_squash (p.iq_squash s.queues);
          updated_queues = true;
          skid_buffer = [];
          to_rename = credit_all s.skid_buffer s.to_rename;
        })
        (same.0 ∙ b, same.1 ∙ n)

  on_squash-IsTold :
      (s : Stage p) → IsFresh s → IsTold (is_blocking s.dispatch_status) (on_squash p s)
  unfolding on_squash
  on_squash-IsTold s f =
      let g = squash-signals s f in
      ground (arith, g.0, g.1, Bool-cases (is_blocking s.dispatch_status))

  resume-IsTold : (s : Stage p) → IsFresh s → IsTold (is_blocking s.dispatch_status) (resume p s)
  unfolding resume unblock
  resume-IsTold s f = ground (arith, f.0, f.1)

  -- A block tells rename of it if dispatch was neither blocked nor unblocking.
  block-IsTold :
      (before : Bool) (s s' : Stage p)
      → IsFresh s
      → (is_blocking s.dispatch_status ≡ true → before ≡ true)
      → block p s ≡ ok s'
      → IsTold before s'
  unfolding block skid_insert
  block-IsTold before s s' f b h =
      ground (arith, h, f.0, f.1, b, Bool-cases (is_blocking s.dispatch_status))

  pub check_signals_and_update-IsTold :
      (c : FromCommit) (s s' : Stage p)
      → IsFresh s
      → check_signals_and_update p c s ≡ ok s'
      → IsTold (is_blocking s.dispatch_status) s'
  unfolding check_signals_and_update check_stall
  check_signals_and_update-IsTold c s s' f h = elim (Bool-cases c.squash) [
    | inl squashes ↦
        let same : s' ≡ on_squash p s = ground (arith, h, squashes) in
        subst (IsTold (is_blocking s.dispatch_status)) (sym same) (on_squash-IsTold s f)
    | inr kept ↦ elim (Bool-cases c.rob_squashing) [
      | inl squashing ↦
          let e = empty_rename_insts p s in
          let s1 : Stage p = record e {
            dispatch_status = StageStatus.squashing;
            wrote_to_time_buffer = true;
          } in
          let blocks : block p s1 ≡ ok s' = ground (arith, h, kept, squashing) in
          block-IsTold (is_blocking s.dispatch_status) s1 s' (empty_rename_insts-signals s f)
            (λ x. absurd (ground (arith, x))) blocks
      | inr idle ↦ elim (Bool-cases (p.iq_full s.queues)) [
        | inl full ↦
            let blocks : block p s ≡ ok s' = ground (arith, h, kept, idle, full) in
            block-IsTold (is_blocking s.dispatch_status) s s' f (λ x. x) blocks
        | inr free ↦
            let same : s' ≡ resume p s = ground (arith, h, kept, idle, free) in
            subst (IsTold (is_blocking s.dispatch_status)) (sym same) (resume-IsTold s f)
      ]
    ]
  ]
