-- ===== src/Lsq/Made.antt =====
-- The requests that a split access makes: src/cpu/o3/lsq.cc.
use patch_tectreee.Base.{
  ℕ, ◌+◌, ◌%◌, ◌^◌, ◌<◌, ◌≡◌, refl, sym, ap, ◌∙◌, true, ltb, ◌==◌, if◌then◌else◌, none, some, List,
  [], ◌∷◌, ◌++◌, map, length, All, arith, Bool-cases, inl, inr,
}
use mathlib.Core.List.{append_assoc, append-nil}
use patch_tectreee.Base.Outcome.{ok, ◌>>=◌}
use patch_tectreee.Request.Constants.{no_access}
use patch_tectreee.Request.State.{
  RequestPlatform, Request, virtual_request, set_virt, set_context, set_paddr,
}
use patch_tectreee.Request.Access.{
  set_byte_enable, set_local_accessor, set_req_inst_seq_num, set_task_id,
}
use patch_tectreee.Lsq.Platform.{LsqPlatform}
use patch_tectreee.Lsq.State.{Inst, LsqRequest}
use patch_tectreee.Lsq.Fragments.{
  Piece, fragment, add_req, add_reqs, set_up, send_fragments, initiate_split,
}
use patch_tectreee.Lsq.Partition.{Covers, all_bytes}
use patch_tectreee.Lsq.Whole.{split_pieces-Covers}

module _ (q : RequestPlatform) (l : LsqPlatform) where
  open l use {is_any_active_element}

  -- The piece that a request asks for.
  abbrev pub outline : Request q → Piece
  outline req = record { addr = req.vaddr; size = req.size; bytes = req.byte_enable }

  -- The pieces with an active byte.
  abbrev pub active : List Piece → List Piece
  active [] = []
  active (p ∷ ps) = if is_any_active_element p.bytes then p ∷ active ps else active ps

  fragment-outline :
      (now : ℕ) (accessor : q.LocalAccessor) (r : LsqRequest q l) (inst : Inst q l) (p : Piece)
      → length p.bytes ≡ p.size
      → (req : Request q) × (fragment q l now accessor r inst p ≡ ok req) × (outline req ≡ p)
  unfolding fragment set_byte_enable virtual_request set_virt set_context set_local_accessor
  fragment-outline now accessor r inst p n =
      let enough : (length p.bytes == p.size) ≡ true = ground (arith, n) in
      let made : Request q =
        virtual_request q now p.addr p.size r.request_flags inst.requestor_id inst.inst_addr
          inst.context_id r.amo_op in
      let req : Request q = record made {
        byte_enable = p.bytes;
        is_mem_barrier = some inst.mem_barrier_executed_before;
      } in
      elim (Bool-cases ((q.word 64).is_set r.request_flags no_access)) [
        | inl local ↦ (record req { local_accessor = some accessor }, rw (enough, local) refl, refl)
        | inr cached ↦ (req, rw (enough, cached) refl, refl)
      ]

  outlines-append :
      (rs : List (Request q)) (req : Request q)
      → map outline (rs ++ req ∷ []) ≡ map outline rs ++ outline req ∷ []
  outlines-append [] req = refl
  outlines-append (r ∷ rs) req = ap (λ ps. outline r ∷ ps) (outlines-append rs req)

  active-cons : (p : Piece) (ps : List Piece) → active (p ∷ []) ++ active ps ≡ active (p ∷ ps)
  active-cons p ps = ground (arith, Bool-cases (is_any_active_element p.bytes))

  add_req-outline :
      (now : ℕ) (accessor : q.LocalAccessor) (inst : Inst q l) (r : LsqRequest q l) (p : Piece)
      → length p.bytes ≡ p.size
      → (r' : LsqRequest q l) × (add_req q l now accessor inst r p ≡ ok r')
        × (map outline r'.reqs ≡ map outline r.reqs ++ active (p ∷ []))
  unfolding add_req
  add_req-outline now accessor inst r p n = elim (Bool-cases (is_any_active_element p.bytes)) [
    | inl some_active ↦
        let (req, eq, same) = fragment-outline now accessor r inst p n in
        (
          record r { reqs = r.reqs ++ req ∷ []; amo_op = none },
          rw (some_active, eq) refl,
          rw (some_active)
              (outlines-append r.reqs req ∙ ap (λ x. map outline r.reqs ++ x ∷ []) same),
        )
    | inr idle ↦ (r, rw (idle) refl, rw (idle) (sym (append-nil (map outline r.reqs))))
  ]

  add_reqs-outline :
      (now : ℕ) (accessor : q.LocalAccessor) (inst : Inst q l) (r : LsqRequest q l)
      (ps : List Piece)
      → All (λ (p : Piece). length p.bytes ≡ p.size) ps
      → (r' : LsqRequest q l) × (add_reqs q l now accessor inst r ps ≡ ok r')
        × (map outline r'.reqs ≡ map outline r.reqs ++ active ps)
  unfolding add_reqs
  add_reqs-outline now accessor inst r [] n = (r, refl, sym (append-nil (map outline r.reqs)))
  add_reqs-outline now accessor inst r (p ∷ ps) (n, ns) =
      let (r1, eq, first) = add_req-outline now accessor inst r p n in
      let (r', eq1, rest) = add_reqs-outline now accessor inst r1 ps ns in
      (
        r',
        ap (λ o. o >>= λ x. add_reqs q l now accessor inst x ps) eq ∙ eq1,
        rest
            ∙ ap (λ x. x ++ active ps) first
            ∙ append_assoc (map outline r.reqs) (active (p ∷ [])) (active ps)
            ∙ ap (λ x. map outline r.reqs ++ x) (active-cons p ps),
      )

  set_up-outline :
      (seq_num task_id : ℕ) (rs : List (Request q))
      → map outline (set_up q l seq_num task_id rs) ≡ map outline rs
  unfolding set_up set_task_id set_req_inst_seq_num
  set_up-outline seq_num task_id [] = refl
  set_up-outline seq_num task_id (r ∷ rs) =
      ap (λ ps. outline r ∷ ps) (set_up-outline seq_num task_id rs)

  Covers-lengths :
      (k a b : ℕ) (ps : List Piece)
      → Covers k a ps b
      → All (λ (p : Piece). length p.bytes ≡ p.size) ps
  Covers-lengths k a b [] h = tt
  Covers-lengths k a b (p ∷ ps) h = (h.2, Covers-lengths k (a + p.size) b ps h.4)

  send_fragments-outline :
      (r : LsqRequest q l) (inst : Inst q l)
      → map outline (send_fragments q l r inst).0.reqs ≡ map outline r.reqs
  unfolding send_fragments
  send_fragments-outline r inst = elim (Bool-cases (ltb 0 (length r.reqs))) [
    | inl many ↦ rw (many) (set_up-outline inst.seq_num r.task_id r.reqs)
    | inr none_made ↦ rw (none_made) refl
  ]

  -- A data access that crosses a line is cut into requests when its translation is initiated: they ask
  -- for pieces that cover the access in order and lie in a line each, except for the pieces without an
  -- active byte, for which there is no request.
  pub initiate_split-outline :
      (now n : ℕ) (accessor : q.LocalAccessor) (r : LsqRequest q l) (inst : Inst q l)
      → 2 ^ n < r.addr % 2 ^ n + r.size
      → r.size < 2 ^ 32
      → r.addr + r.size + 2 ^ n < 2 ^ 64
      → length r.byte_enable ≡ r.size
      → r.reqs ≡ []
      → (ps : List Piece) × (r' : LsqRequest q l) × (inst' : Inst q l) × (initiate_split q l now
            (2 ^ n)
            accessor
            r
            inst
          ≡ ok (r', inst'))
        × Covers (2 ^ n) r.addr ps (r.addr + r.size)
        × (all_bytes ps ≡ r.byte_enable)
        × (map outline r'.reqs ≡ active ps)
  unfolding initiate_split set_byte_enable virtual_request set_virt set_context
  initiate_split-outline now n accessor r inst wide small fits bytes fresh =
      let (ps, eq, covers, whole) =
        split_pieces-Covers q l n r.addr r.size r.byte_enable wide small fits bytes in
      let enough : (length r.byte_enable == r.size) ≡ true = ground (arith, bytes) in
      let made : Request q =
        virtual_request q now r.addr r.size r.request_flags inst.requestor_id inst.inst_addr
          inst.context_id none in
      let main : Request q = record made { byte_enable = r.byte_enable } in
      let r0 : LsqRequest q l = record r { main_req = some (set_paddr q main 0) } in
      let (r1, eq1, outlines) =
        add_reqs-outline now accessor inst r0 ps
          (Covers-lengths (2 ^ n) r.addr (r.addr + r.size) ps covers) in
      (
        ps,
        (send_fragments q l r1 inst).0,
        (send_fragments q l r1 inst).1,
        rw (enough, eq, eq1) refl,
        covers,
        whole,
        send_fragments-outline r1 inst ∙ outlines ∙ ap (λ rs. map outline rs ++ active ps) fresh,
      )
