-- ===== src/Iew/Cycle.antt =====
-- A cycle of dispatch, and what rename hears of it: src/cpu/o3/iew.cc.
use patch_tectreee.Base.{◌≡◌, sym, ap, ◌∙◌, Bool, arith, inl, inr}
use patch_tectreee.Base.Outcome.{Outcome-cases, ok, ◌>>=◌}
use patch_tectreee.Iew.Stage.{IewPlatform, FromCommit, is_blocking, Stage, check_signals_and_update}
use patch_tectreee.Iew.Dispatch.{dispatch, cycle}
use patch_tectreee.Iew.Kept.{dispatch_at-kept}
use patch_tectreee.Iew.Signals.{IsTold, IsFresh, IsTold-IsKept, check_signals_and_update-IsTold}

module _ (p : IewPlatform) where
  -- In a cycle that no assertion stops, with whatever signals from commit and queues however full: if
  -- rename was stalled exactly if dispatch was blocked or unblocking, it is so after it hears what the
  -- cycle tells it.
  pub cycle-IsTold :
      (c : FromCommit) (received empty : Bool) (s s' : Stage p)
      → IsFresh p s
      → cycle p c received empty s ≡ ok s'
      → IsTold p (is_blocking s.dispatch_status) s'
  unfolding cycle dispatch
  cycle-IsTold c received empty s s' f h = elim (Outcome-cases (check_signals_and_update p c s)) [
    | inl stop ↦ absurd (ground (arith, h, stop))
    | inr (s1, eq) ↦
        dispatch_at-kept p (IsTold p (is_blocking s.dispatch_status))
          (IsTold-IsKept p (is_blocking s.dispatch_status)) received empty s1.dispatch_status s1 s'
          (check_signals_and_update-IsTold p c s s1 f eq)
          (ap (λ o. o >>= dispatch p received empty) (sym eq) ∙ h)
  ]
