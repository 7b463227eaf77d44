-- ===== src/Lsq/Sync.antt =====
-- What a snoop and a check leave of the wait for stale translations: src/cpu/o3/lsq.cc.
use mathlib.Core.List.{append-nil}
use patch_tectreee.Base.{
  ℕ, ◌≡◌, ap, sym, ◌∙◌, true, false, if◌then◌else◌, none, some, List, [], ◌∷◌, ◌++◌, map, arith,
  Bool-cases, Option-cases, inl, inr,
}
use patch_tectreee.Base.Outcome.{Outcome-cases, ok}
use patch_tectreee.Request.State.{RequestPlatform, Request}
use patch_tectreee.Request.Access.{get_extra_data, set_extra_data}
use patch_tectreee.Request.Query.{is_tlbi_ext_sync, create_mem_management}
use patch_tectreee.Lsq.Queue.{QueuePlatform, Lsq}
use patch_tectreee.Lsq.Stale.{
  Snoop, Surroundings, any_blocking, completion, check_stale_translations, begin_wait, recv_sync,
  recv_timing_snoop_req,
}

module _ (q : RequestPlatform) (k : QueuePlatform) where
  -- The transactions that the queue still owes a completion.
  abbrev pub pending : Lsq k → List ℕ
  pending s = if s.waiting_for_stale_translation then s.stale_translation_wait_txn_id ∷ [] else []

  -- The transaction of a synchronisation that a snoop begins.
  abbrev pub begun : Snoop q k → List ℕ
  begun pkt = if k.is_invalidate pkt.packet then [] else (elim pkt.req [
    | none ↦ []
    | some req ↦ if is_tlbi_ext_sync q req then req.extra_data ∷ [] else []
  ])

  abbrev pub extra_datas : List (Request q) → List ℕ
  extra_datas rs = map (λ (r : Request q). r.extra_data) rs

  completion-extra_data :
      (e : Surroundings) (txn_id : ℕ) (req : Request q)
      → completion q k e txn_id ≡ ok req
      → req.extra_data ≡ txn_id
  unfolding completion set_extra_data create_mem_management
  completion-extra_data e txn_id req h = ground (arith, h)

  pub check-pending :
      (e : Surroundings) (s s' : Lsq k) (sent : List (Request q))
      → check_stale_translations q k e s ≡ ok (s', sent)
      → extra_datas sent ++ pending s' ≡ s.stale_translation_wait_txn_id ∷ []
  unfolding check_stale_translations
  check-pending e s s' sent h =
      elim (Outcome-cases (completion q k e s.stale_translation_wait_txn_id)) [
        | inl stop ↦ ground (arith, h, stop, Bool-cases (any_blocking q k s.thread))
        | inr (req, eq) ↦
            let owed = completion-extra_data e s.stale_translation_wait_txn_id req eq in
            ground (arith, h, eq, owed, Bool-cases (any_blocking q k s.thread))
      ]

  begin-pending :
      (e : Surroundings) (s s' : Lsq k) (req : Request q) (sent : List (Request q))
      → begin_wait q k e s req ≡ ok (s', sent)
      → extra_datas sent ++ pending s' ≡ pending s ++ req.extra_data ∷ []
  unfolding begin_wait get_extra_data
  begin-pending e s s' req sent h =
      let waits : s.waiting_for_stale_translation ≡ false = ground (arith, h) in
      let s1 : Lsq k = record s {
        waiting_for_stale_translation = true;
        stale_translation_wait_txn_id = req.extra_data;
        thread = map k.start_stale_translation_flush s.thread;
      } in
      let checked : check_stale_translations q k e s1 ≡ ok (s', sent) = ground (arith, h) in
      check-pending e s1 s' sent checked
      ∙ ap (λ b. (if b then s.stale_translation_wait_txn_id ∷ [] else []) ++ req.extra_data ∷ [])
          (sym waits)

  -- After a snoop: what was sent and is still owed is what was owed and what the snoop begins.
  pub snoop-pending :
      (e : Surroundings) (s s' : Lsq k) (pkt : Snoop q k) (sent : List (Request q))
      → recv_timing_snoop_req q k e s pkt ≡ ok (s', sent)
      → extra_datas sent ++ pending s' ≡ pending s ++ begun pkt
  unfolding recv_timing_snoop_req recv_sync
  snoop-pending e s s' pkt sent h = elim (Bool-cases (k.is_invalidate pkt.packet)) [
    | inl invalidates ↦ ground (arith, h, invalidates, append-nil (pending s))
    | inr plain ↦ elim (Option-cases pkt.req) [
      | inl alone ↦ ground (arith, h, plain, alone, append-nil (pending s))
      | inr (req, eq) ↦ elim (Bool-cases (is_tlbi_ext_sync q req)) [
        | inl syncs ↦
            let began : begin_wait q k e s req ≡ ok (s', sent) =
              ground (arith, h, plain, eq, syncs) in
            rw (plain, eq, syncs) (begin-pending e s s' req sent began)
        | inr other ↦ ground (arith, h, plain, eq, other, append-nil (pending s))
      ]
    ]
  ]
