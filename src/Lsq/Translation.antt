-- ===== src/Lsq/Translation.antt =====
-- The answers of the translation: `SingleDataRequest::finish`, `SplitDataRequest::finish` and
-- `UnsquashableDirectRequest::finish` of src/cpu/o3/lsq.cc. The translation has written the physical
-- address and the flags to the request before. A fragment is named by its place among the requests,
-- which the code finds by its pointer.
use patch_tectreee.Base.{
  ℕ, zero, suc, ◌+◌, ◌-◌, ◌%◌, ◌^◌, Bool, true, false, not, ◌==◌, if◌then◌else◌, Option, none, some,
  List, [], ◌∷◌, length, get_elem?, set, ◌++◌,
}
use patch_tectreee.Base.Outcome.{Outcome, ok, abort, ◌>>=◌, ◌>>◌, assert, deref}
use patch_tectreee.Request.State.{RequestPlatform, Request}
use patch_tectreee.Request.Access.{get_paddr, get_flags, set_flags, set_extra_data}
use patch_tectreee.Request.Query.{is_strictly_ordered, is_cond_swap}
use patch_tectreee.Lsq.Platform.{LsqPlatform}
use patch_tectreee.Lsq.State.{State, Inst, LsqRequest}
use patch_tectreee.Lsq.Release.{Left, squash_translation}

-- A counter of 32 bits after a decrement.
abbrev pub decremented : ℕ → ℕ
decremented n = (n + 2 ^ 32 - 1) % 2 ^ 32

module _ (q : RequestPlatform) (l : LsqPlatform) where
  open q use {word}
  open l use {FaultObject}

  abbrev has_fault : Option FaultObject → Bool
  has_fault none = false
  has_fault (some f) = true

  -- `request->setExtraData(*_res)` of a conditional swap.
  unfoldable pub with_compare_value : Option ℕ → Request q → Outcome (Request q)
  with_compare_value res req =
      if is_cond_swap q req then (do value ← deref res; ok (set_extra_data q req value)) else ok req

  -- `SingleDataRequest::finish`, with the request that was translated.
  unfoldable pub finish_single :
      LsqRequest q l → Inst q l → Option FaultObject → Request q → Outcome (Left q l)
  finish_single r inst fault req =
      let f = r.flags in
      let r' : LsqRequest q l = record r {
        faults = r.faults ++ fault ∷ [];
        num_in_translation_fragments = 0;
        num_translated_fragments = 1;
      } in
      let inst' : Inst q l = record inst {
        strictly_ordered = is_strictly_ordered q req;
        inst_fault = fault;
        translation_completed = true;
      } in
      let done = record f { translation_finished = true } in
      if inst.is_squashed then squash_translation q l r' inst else elim fault [
        | none ↦ do
          paddr ← get_paddr q req
          flags ← get_flags q req
          req' ← with_compare_value r.res req
          ok (
            some (record r' { flags = done; state = State.request; reqs = set r.reqs 0 req' }),
            record inst' { phys_eff_addr = paddr; mem_req_flags = flags },
          )
        | some _ ↦ ok (some (record r' { flags = done; state = State.fault }), inst')
      ]

  -- The first fault among the fragments, with its place.
  unfoldable pub first_fault : ℕ → List (Option FaultObject) → Option (ℕ × FaultObject)
  first_fault i [] = none
  first_fault i (none ∷ faults) = first_fault (suc i) faults
  first_fault i (some f ∷ faults) = some (i, f)

  -- The instruction of a split access with a fragment that was translated: it gets the physical
  -- address of the first one, and the flags of the main request.
  unfoldable pub with_first_address : LsqRequest q l → Inst q l → Request q → Outcome (Inst q l)
  with_first_address r inst main = do
    first ← deref (get_elem? r.reqs 0)
    paddr ← get_paddr q first
    flags ← get_flags q main
    ok (record inst { phys_eff_addr = paddr; mem_req_flags = flags })

  -- The branch of `SplitDataRequest::finish` on the first fault.
  unfoldable pub settle_at :
      Option (ℕ × FaultObject) → LsqRequest q l → Inst q l → Request q → Outcome (Left q l)
  settle_at none r inst main = do
    i ← with_first_address r inst main
    main' ← with_compare_value r.res main
    ok (
      some (record r { main_req = some main'; state = State.request }),
      record i { inst_fault = none },
    )
  settle_at (some (zero, fault)) r inst main =
      ok (some (record r { state = State.fault }), record inst { inst_fault = some fault })
  settle_at (some (suc n, fault)) r inst main = do
    i ← with_first_address r inst main
    assert (not (is_cond_swap q main))
    ok (some (record r { state = State.partial_fault }), record i { inst_fault = some fault })

  -- The end of `SplitDataRequest::finish`, when every fragment has its answer.
  unfoldable pub settle : LsqRequest q l → Inst q l → Request q → Outcome (Left q l)
  settle r inst main =
      let f = r.flags in
      settle_at (first_fault 0 r.faults)
        (record r { flags = record f { translation_finished = true } })
        (record inst {
          strictly_ordered = is_strictly_ordered q main;
          translation_completed = true;
        })
        main

  -- `SplitDataRequest::finish` of the fragment `i`.
  unfoldable pub finish_split :
      LsqRequest q l → Inst q l → ℕ → Option FaultObject → Outcome (Left q l)
  finish_split r inst i fault = do
    req ← deref (get_elem? r.reqs i)
    main ← deref r.main_req
    main' ← elim fault [
      | none ↦ do flags ← get_flags q req; set_flags q main ((word 64).bits flags)
      | some _ ↦ ok main
    ]
    let r' : LsqRequest q l = record r {
      faults = set r.faults i fault;
      num_in_translation_fragments = decremented r.num_in_translation_fragments;
      num_translated_fragments = (r.num_translated_fragments + 1) % 2 ^ 32;
      main_req = some main';
    }
    if r'.num_translated_fragments == length r'.reqs
        then (if inst.is_squashed then squash_translation q l r' inst else settle r' inst main')
        else ok (some r', inst)

  -- `UnsquashableDirectRequest::finish` is a panic.
  unfoldable pub finish_direct : LsqRequest q l → Inst q l → Outcome (Left q l)
  finish_direct r inst = abort
