-- ===== src/Lsq/Answers.antt =====
-- One answer of the translation to a split access. Code: `SplitDataRequest::finish` of
-- src/cpu/o3/lsq.cc.
use patch_tectreee.Base.{
  ℕ, zero, suc, ◌+◌, ◌%◌, ◌^◌, ◌≡◌, refl, sym, ◌∙◌, true, false, ◌==◌, if◌then◌else◌, Option, none,
  some, List, length, get_elem?, set, arith,
}
use patch_tectreee.Base.Outcome.{ok}
use patch_tectreee.Request.State.{RequestPlatform, Request}
use patch_tectreee.Request.Access.{
  has_paddr, has_vaddr, has_address, get_paddr, get_flags, set_flags,
}
use patch_tectreee.Request.Query.{is_cond_swap, is_strictly_ordered}
use patch_tectreee.Request.Bits.{is_set-bit, is_set-set}
use patch_tectreee.Lsq.Platform.{LsqPlatform}
use patch_tectreee.Lsq.State.{State, Inst, LsqRequest}
use patch_tectreee.Lsq.Translation.{
  decremented, with_compare_value, first_fault, settle, settle_at, with_first_address, finish_split,
}

module _ (q : RequestPlatform) (l : LsqPlatform) where
  open q use {word}
  open l use {FaultObject}

  -- The main request has an address, and is no conditional swap.
  pub record IsMain (m : Request q) : Type 0 where
    pub addressed : has_address q m ≡ true
    pub no_swap : is_cond_swap q m ≡ false

  -- A request that was translated without a fault.
  pub record IsTranslated (m : Request q) : Type 0 where
    pub physical : has_paddr q m ≡ true
    pub plain : is_cond_swap q m ≡ false

  -- The flags of a translated request join those of the main request, which stays one.
  set_flags-IsMain :
      (m req : Request q)
      → IsMain m
      → IsTranslated req
      → (m' : Request q) × (set_flags q m ((word 64).bits req.flags) ≡ ok m') × IsMain m'
  unfolding set_flags is_cond_swap has_paddr has_vaddr
  set_flags-IsMain m req v t =
      let o = word 64 in
      let fs = o.set m.flags (o.bits req.flags) in
      let none_there : o.bits req.flags 23 ≡ false =
        sym (is_set-bit 64 o req.flags 23 (omega arith)) ∙ t.plain in
      (
        record m { flags = fs },
        rw v.addressed refl,
        record {
          addressed = v.addressed;
          no_swap =
              is_set-set 64 o m.flags (o.bits req.flags) 23 (omega arith)
              ∙ rw (v.no_swap, none_there) refl;
        },
      )

  get_flags-IsTranslated : (req : Request q) → IsTranslated req → get_flags q req ≡ ok req.flags
  unfolding get_flags
  get_flags-IsTranslated req t = rw t.physical refl

  -- The request after an answer, with the main request `m`.
  abbrev pub answered : LsqRequest q l → ℕ → Option FaultObject → Request q → LsqRequest q l
  answered r i fault m = record r {
    faults = set r.faults i fault;
    num_in_translation_fragments = decremented r.num_in_translation_fragments;
    num_translated_fragments = (r.num_translated_fragments + 1) % 2 ^ 32;
    main_req = some m;
  }

  -- The request of an answer without a fault is translated.
  abbrev pub Supports : Option FaultObject → Request q → Type 0
  Supports none req = IsTranslated req
  Supports (some f) req = Unit {0}

  -- An answer is recorded, and the request settled if it was the last one.
  pub finish_split-answered :
      (r : LsqRequest q l) (inst : Inst q l) (i : ℕ) (fault : Option FaultObject)
      (m req : Request q)
      → inst.is_squashed ≡ false
      → r.main_req ≡ some m
      → IsMain m
      → get_elem? r.reqs i ≡ some req
      → Supports fault req
      → (m' : Request q) × IsMain m'
        × (finish_split q l r inst i fault ≡ (
            if (r.num_translated_fragments + 1) % 2 ^ 32 == length r.reqs
            then settle q l (answered r i fault m') inst m'
            else ok (some (answered r i fault m'), inst)))
  unfolding finish_split
  finish_split-answered r inst i none m req sq main v at t =
      let (m', joined, v') = set_flags-IsMain m req v t in
      (m', v', rw (at, main, get_flags-IsTranslated req t, joined, sq) refl)
  finish_split-answered r inst i (some f) m req sq main v at t = (m, v, rw (at, main, sq) refl)

  -- The state and the fault that the answers ask for: the first fragment's fault stops the access, a
  -- later one leaves a part of it.
  abbrev pub Verdict : Option (ℕ × FaultObject) → State → Option FaultObject → Type 0
  Verdict none s f = (s ≡ State.request) × (f ≡ none)
  Verdict (some (zero, x)) s f = (s ≡ State.fault) × (f ≡ some x)
  Verdict (some (suc i, x)) s f = (s ≡ State.partial_fault) × (f ≡ some x)

  -- The first fragment is translated, unless its fault is the first one.
  abbrev pub FirstReady : Option (ℕ × FaultObject) → List (Request q) → Type 0
  FirstReady (some (zero, x)) reqs = Unit {0}
  FirstReady _ reqs = (req : Request q) × (get_elem? reqs 0 ≡ some req) × IsTranslated req

  -- The instruction after its translation, and with its first physical address.
  abbrev told : Inst q l → Request q → Option FaultObject → Inst q l
  told inst m f = record inst {
    strictly_ordered = is_strictly_ordered q m;
    translation_completed = true;
    inst_fault = f;
  }

  abbrev settled_inst : Inst q l → Request q → Request q → Option FaultObject → Inst q l
  settled_inst inst m req f =
      let i = told inst m f in record i { phys_eff_addr = req.paddr; mem_req_flags = m.flags }

  abbrev finished : LsqRequest q l → State → Option (Request q) → LsqRequest q l
  finished r s m =
      let f = r.flags in
      record r { flags = record f { translation_finished = true }; state = s; main_req = m }

  pub settle-Verdict :
      (r : LsqRequest q l) (inst : Inst q l) (m : Request q) (o : Option (ℕ × FaultObject))
      → IsMain m
      → first_fault q l 0 r.faults ≡ o
      → FirstReady o r.reqs
      → (r' : LsqRequest q l) × (inst' : Inst q l) × (settle q l r inst m ≡ ok (some r', inst'))
        × Verdict o r'.state inst'.inst_fault
        × (inst'.translation_completed ≡ true)
  unfolding settle settle_at with_first_address get_paddr get_flags with_compare_value
  settle-Verdict r inst m none v e (req, at, t) = (
    finished r State.request (some m),
    settled_inst inst m req none,
    rw (e, at, t.physical, v.addressed, v.no_swap) refl,
    (refl, refl),
    refl,
  )
  settle-Verdict r inst m (some (zero, x)) v e u =
      (finished r State.fault r.main_req, told inst m (some x), rw e refl, (refl, refl), refl)
  settle-Verdict r inst m (some (suc i, x)) v e (req, at, t) = (
    finished r State.partial_fault r.main_req,
    settled_inst inst m req (some x),
    rw (e, at, t.physical, v.addressed, v.no_swap) refl,
    (refl, refl),
    refl,
  )
