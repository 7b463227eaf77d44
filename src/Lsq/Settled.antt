-- ===== src/Lsq/Settled.antt =====
-- A split access is settled by its last answer, whatever the order.
-- Code: `SplitDataRequest::finish` of src/cpu/o3/lsq.cc.
use patch_tectreee.Base.{ℕ, ◌^◌, ◌<◌, ◌≡◌, Option, none, some, List, [], ◌∷◌, length, get_elem?}
use patch_tectreee.Base.Outcome.{Outcome, ok, abort, ◌>>=◌}
use patch_tectreee.Request.State.{RequestPlatform, Request}
use patch_tectreee.Lsq.Platform.{LsqPlatform}
use patch_tectreee.Lsq.State.{Inst, LsqRequest}
use patch_tectreee.Lsq.Release.{Left}
use patch_tectreee.Lsq.Translation.{finish_split}
use patch_tectreee.Lsq.Answers.{Supports}
use patch_tectreee.Lsq.Order.{fault_at}

module _ (q : RequestPlatform) (l : LsqPlatform) where
  open l use {FaultObject}

  -- The answers `fs` come in the order `is`.
  unfoldable pub run_answers :
      LsqRequest q l → Inst q l → List (Option FaultObject) → List ℕ → Outcome (Left q l)
  run_answers r inst fs [] = ok (some r, inst)
  run_answers r inst fs (i ∷ is) = do
    (left, inst') ← finish_split q l r inst i (fault_at fs i)
    elim left [ none ↦ abort | some r' ↦ run_answers r' inst' fs is ]

  -- `fs` answers each of the requests of a split access, and the translated ones have an address.
  pub record IsAnswered (r : LsqRequest q l) (fs : List (Option FaultObject)) : Type 0 where
    pub as_many : length fs ≡ length r.reqs
    pub few : length r.reqs < 2 ^ 32
    pub supported :
        (i : ℕ)
        → i < length r.reqs
        → (req : Request q) × (get_elem? r.reqs i ≡ some req) × Supports q l (fault_at fs i) req
