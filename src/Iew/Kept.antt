-- ===== src/Iew/Kept.antt =====
-- A predicate of the stage that its parts keep is kept by the whole of dispatch.
-- Code: `dispatchInsts` and `dispatch` of src/cpu/o3/iew.cc.
use patch_tectreee.Base.{
  ℕ, zero, suc, ◌≡◌, sym, ap, subst, ◌∙◌, Bool, true, false, not, ltb, if◌then◌else◌, length, arith,
  Bool-cases, ◌&&◌, inl, inr, List-cases,
}
use patch_tectreee.Base.Outcome.{Outcome, Outcome-cases, ok, ◌>>=◌, ◌>>◌, assert}
use patch_tectreee.Iew.Stage.{
  StageStatus, IewPlatform, is_unblocking, is_idle, Stage, skid_insert, unblock,
}
use patch_tectreee.Iew.Dispatch.{
  source, block_again, dispatch_one, dispatch_loop, wake, after_loop, dispatch_insts,
  finish_unblocking, dispatch_at,
}

module _ (p : IewPlatform) where
  -- The parts that dispatch is made of keep a predicate.
  pub record IsKept (P : Stage p → Type 0) : Type 0 where
    pub after_skid_insert : (s s' : Stage p) → P s → skid_insert p s ≡ ok s' → P s'
    pub after_unblock : (s : Stage p) → P s → P (unblock p s)
    pub after_block_again : (s s' : Stage p) → P s → block_again p s ≡ ok s' → P s'
    pub after_dispatch_one :
        (unblocks go_on : Bool) (s s' : Stage p)
        → P s
        → dispatch_one p unblocks s ≡ ok (go_on, s')
        → P s'
    -- The end of `dispatchInsts` for an idle stage.
    pub after_wake :
        (s : Stage p)
        → P s
        → is_idle s.dispatch_status ≡ true
        → P (record s { dispatch_status = StageStatus.running; updated_queues = true })

  -- The rest of the loop of `dispatchInsts` after a turn.
  abbrev pub continue : Bool → ℕ → Outcome (Bool × Stage p) → Outcome (Stage p)
  continue unblocks n o = do
    (go_on, s') ← o
    let rest = dispatch_loop p unblocks n s'
    if go_on then rest else ok s'

module _ (p : IewPlatform) (P : Stage p → Type 0) (kept : IsKept p P) where
  dispatch_loop-kept :
      (unblocks : Bool) (n : ℕ) (s s' : Stage p) → P s → dispatch_loop p unblocks n s ≡ ok s' → P s'
  unfolding dispatch_loop
  dispatch_loop-kept unblocks zero s s' t h = ground (arith, h, t)
  dispatch_loop-kept unblocks (suc n) s s' t h = elim (Outcome-cases (dispatch_one p unblocks s)) [
    | inl stop ↦ absurd (ground (arith, h, stop))
    | inr ((true, s1), eq) ↦
        dispatch_loop-kept unblocks n s1 s' (kept.after_dispatch_one unblocks true s s1 t eq)
          (ap (continue p unblocks n) (sym eq) ∙ h)
    | inr ((false, s1), eq) ↦
        let told = kept.after_dispatch_one unblocks false s s1 t eq in
        ground (arith, ap (continue p unblocks n) (sym eq) ∙ h, told)
  ]

  wake-kept : (n : ℕ) (s : Stage p) → P s → P (wake p n s)
  unfolding wake
  wake-kept n s t = elim (Bool-cases (is_idle s.dispatch_status && ltb 0 n)) [
    | inl wakes ↦ rw (wakes) (kept.after_wake s t (ground (arith, wakes)))
    | inr stays ↦ rw (stays) t
  ]

  after_loop-kept :
      (unblocks : Bool) (n : ℕ) (s s' : Stage p) → P s → after_loop p unblocks n s ≡ ok s' → P s'
  unfolding after_loop
  after_loop-kept unblocks n s s' t h = elim (List-cases (source p unblocks s)) [
    | inl empty ↦
        let same : s' ≡ wake p n s = ground (arith, h, empty) in
        subst P (sym same) (wake-kept n s t)
    | inr (i, is, eq) ↦ elim (Outcome-cases (block_again p s)) [
      | inl stop ↦ absurd (ground (arith, h, eq, stop))
      | inr (s1, blocks) ↦
          let same : s' ≡ wake p n s1 = ground (arith, h, eq, blocks) in
          subst P (sym same) (wake-kept n s1 (kept.after_block_again s s1 t blocks))
    ]
  ]

  pub dispatch_insts-kept : (s s' : Stage p) → P s → dispatch_insts p s ≡ ok s' → P s'
  unfolding dispatch_insts
  dispatch_insts-kept s s' t h =
      let b = is_unblocking s.dispatch_status in
      let count = length (source p b s) in
      let n = if ltb count s.dispatch_width then count else s.dispatch_width in
      elim (Outcome-cases (dispatch_loop p b n s)) [
        | inl stop ↦ absurd (ground (arith, ap (λ o. o >>= after_loop p b n) (sym stop) ∙ h))
        | inr (s1, eq) ↦
            after_loop-kept b n s1 s' (dispatch_loop-kept b n s s1 t eq)
              (ap (λ o. o >>= after_loop p b n) (sym eq) ∙ h)
      ]

  finish_unblocking-kept :
      (received : Bool) (s s' : Stage p) → P s → finish_unblocking p received s ≡ ok s' → P s'
  unfolding finish_unblocking
  finish_unblocking-kept true s s' t h = elim (Outcome-cases (skid_insert p s)) [
    | inl stop ↦ absurd (ground (arith, h, stop))
    | inr (s2, eq) ↦
        let same : s' ≡ unblock p s2 = ground (arith, h, eq) in
        subst (P) (sym same) (kept.after_unblock s2 (kept.after_skid_insert s s2 t eq))
  ]
  finish_unblocking-kept false s s' t h =
      let same : s' ≡ unblock p s = ground (arith, h) in
      subst (P) (sym same) (kept.after_unblock s t)

  unblocking-kept :
      (received empty : Bool) (s s' : Stage p)
      → P s
      → (assert (not empty) >> (dispatch_insts p s >>= finish_unblocking p received)) ≡ ok s'
      → P s'
  unblocking-kept received true s s' t h = absurd (ground (arith, h))
  unblocking-kept received false s s' t h = elim (Outcome-cases (dispatch_insts p s)) [
    | inl stop ↦
        absurd (ground (arith, ap (λ o. o >>= finish_unblocking p received) (sym stop) ∙ h))
    | inr (s1, eq) ↦
        finish_unblocking-kept received s1 s' (dispatch_insts-kept s s1 t eq)
          (ap (λ o. o >>= finish_unblocking p received) (sym eq) ∙ h)
  ]

  pub dispatch_at-kept :
      (received empty : Bool) (st : StageStatus) (s s' : Stage p)
      → P s
      → dispatch_at p st received empty s ≡ ok s'
      → P s'
  unfolding dispatch_at
  dispatch_at-kept received empty StageStatus.running s s' t h = dispatch_insts-kept s s' t h
  dispatch_at-kept received empty StageStatus.idle s s' t h = dispatch_insts-kept s s' t h
  dispatch_at-kept received empty StageStatus.unblocking s s' t h =
      unblocking-kept received empty s s' t h
  dispatch_at-kept received empty StageStatus.blocked s s' t h = ground (arith, h, t)
  dispatch_at-kept received empty StageStatus.start_squash s s' t h = ground (arith, h, t)
  dispatch_at-kept received empty StageStatus.squashing s s' t h = ground (arith, h, t)
