-- ===== src/Lsq/Completions.antt =====
-- Each synchronisation of translations is completed once, and in order: src/cpu/o3/lsq.cc.
use mathlib.Core.Path.{ap₂}
use mathlib.Core.List.{append_assoc, append-nil}
use patch_tectreee.Lsq.Threads.{unit_of}
use patch_tectreee.Base.{
  ℕ, ◌≡◌, refl, ap, sym, ◌∙◌, if◌then◌else◌, Option, none, some, List, [], ◌∷◌, ◌++◌, map, set,
  arith, Bool-cases, inl, inr,
}
use patch_tectreee.Base.Outcome.{Outcome, Outcome-cases, ok, ◌>>=◌}
use patch_tectreee.Request.State.{RequestPlatform, Request}
use patch_tectreee.Lsq.Platform.{LsqPlatform}
use patch_tectreee.Lsq.State.{Inst, LsqRequest}
use patch_tectreee.Lsq.Release.{Left, packet_replied}
use patch_tectreee.Lsq.Queue.{QueuePlatform, Lsq}
use patch_tectreee.Lsq.Stale.{
  Snoop, Surroundings, Sent, check_stale_translations, recv_timing_snoop_req, recv_timing_resp,
  check_if_waiting,
}
use patch_tectreee.Lsq.Sync.{pending, begun, extra_datas, check-pending, snoop-pending}

-- What befalls the wait: a snoop, a response, or other work of the units.
pub data SyncEvent (q : RequestPlatform) (l : LsqPlatform) (k : QueuePlatform) : Type 0 where
  snooped : Surroundings → Snoop q k → SyncEvent q l k
  responded : Surroundings → k.Packet → Option (LsqRequest q l × Inst q l) → SyncEvent q l k
  worked : List k.LsqUnit → SyncEvent q l k

module _ (q : RequestPlatform) (l : LsqPlatform) (k : QueuePlatform)
    (context_to_thread : q.ContextId → ℕ)
    (respond : k.Packet → LsqRequest q l → k.LsqUnit → LsqRequest q l × k.LsqUnit) where
  unfoldable pub sync_event : SyncEvent q l k → Lsq k → Outcome (Sent q k)
  sync_event (snooped e pkt) s = recv_timing_snoop_req q k e s pkt
  sync_event (responded e pkt sender) s = do
    (left, sent) ← recv_timing_resp q l k context_to_thread respond e s pkt sender
    ok sent
  sync_event (worked units) s = ok (record s { thread = units }, [])

  unfoldable pub sync_events : List (SyncEvent q l k) → Lsq k → Outcome (Sent q k)
  sync_events [] s = ok (s, [])
  sync_events (e ∷ es) s = do
    (s1, sent) ← sync_event e s
    (s2, more) ← sync_events es s1
    ok (s2, sent ++ more)

  -- The transactions of the synchronisations that some events begin.
  abbrev pub all_begun : List (SyncEvent q l k) → List ℕ
  all_begun [] = []
  all_begun (snooped e pkt ∷ es) = begun q k pkt ++ all_begun es
  all_begun (responded e pkt sender ∷ es) = all_begun es
  all_begun (worked units ∷ es) = all_begun es

  check_if_waiting-pending :
      (e : Surroundings) (s s' : Lsq k) (sent : List (Request q))
      → check_if_waiting q k e s ≡ ok (s', sent)
      → extra_datas q k sent ++ pending q k s' ≡ pending q k s
  unfolding check_if_waiting
  check_if_waiting-pending e s s' sent h = elim (Bool-cases s.waiting_for_stale_translation) [
    | inl waits ↦
        let checked : check_stale_translations q k e s ≡ ok (s', sent) = ground (arith, h, waits) in
        rw (waits) (check-pending q k e s s' sent checked)
    | inr idle ↦ ground (arith, h, idle)
  ]

  resp-pending :
      (e : Surroundings) (s s' : Lsq k) (pkt : k.Packet)
      (sender : Option (LsqRequest q l × Inst q l)) (left : Left q l) (sent : List (Request q))
      → recv_timing_resp q l k context_to_thread respond e s pkt sender ≡ ok (left, (s', sent))
      → extra_datas q k sent ++ pending q k s' ≡ pending q k s
  unfolding recv_timing_resp
  resp-pending e s s' pkt none left sent h = ground (arith, h)
  resp-pending e s s' pkt (some (r, inst)) left sent h =
      elim (Outcome-cases (unit_of k s (context_to_thread inst.context_id))) [
        | inl stop ↦ ground (arith, h, stop)
        | inr (u, eq) ↦
            let (r', u') = respond pkt r u in
            let units = set s.thread (context_to_thread inst.context_id) u' in
            let s1 : Lsq k = record s {
              thread = if k.is_invalidate pkt then map (k.check_snoop pkt) units else units;
            } in
            elim (Outcome-cases (packet_replied q l r' inst)) [
              | inl stop ↦ ground (arith, h, eq, stop)
              | inr (left', eq1) ↦ elim (Outcome-cases (check_if_waiting q k e s1)) [
                | inl stop ↦ ground (arith, h, eq, eq1, stop)
                | inr (sent', eq2) ↦
                    let same : sent' ≡ (s', sent) = ground (arith, h, eq, eq1, eq2) in
                    check_if_waiting-pending e s1 s' sent (eq2 ∙ ap ok same)
              ]
            ]
      ]

  sync_event-pending :
      (e : SyncEvent q l k) (s s' : Lsq k) (sent : List (Request q))
      → sync_event e s ≡ ok (s', sent)
      → extra_datas q k sent ++ pending q k s' ≡ pending q k s ++ all_begun (e ∷ [])
  unfolding sync_event
  sync_event-pending (snooped e pkt) s s' sent h =
      snoop-pending q k e s s' pkt sent h
      ∙ ap (λ ys. pending q k s ++ ys) (sym (append-nil (begun q k pkt)))
  sync_event-pending (responded e pkt sender) s s' sent h =
      elim (Outcome-cases (recv_timing_resp q l k context_to_thread respond e s pkt sender)) [
        | inl stop ↦ absurd (ground (arith, h, stop))
        | inr ((left, sent'), eq) ↦
            let same : sent' ≡ (s', sent) = ground (arith, h, eq) in
            resp-pending e s s' pkt sender left sent (eq ∙ ap (λ x. ok (left, x)) same)
            ∙ sym (append-nil (pending q k s))
      ]
  sync_event-pending (worked units) s s' sent h = ground (arith, h, append-nil (pending q k s))

  all_begun-cons :
      (e : SyncEvent q l k) (es : List (SyncEvent q l k))
      → all_begun (e ∷ []) ++ all_begun es ≡ all_begun (e ∷ es)
  all_begun-cons (snooped e pkt) es = ap (λ xs. xs ++ all_begun es) (append-nil (begun q k pkt))
  all_begun-cons (responded e pkt sender) es = refl
  all_begun-cons (worked units) es = refl

  extra_datas-append :
      (xs ys : List (Request q))
      → extra_datas q k (xs ++ ys) ≡ extra_datas q k xs ++ extra_datas q k ys
  extra_datas-append [] ys = refl
  extra_datas-append (x ∷ xs) ys = ap (λ zs. x.extra_data ∷ zs) (extra_datas-append xs ys)

  -- Whatever a queue sees, as long as no assertion fails: the completions that it sent and the one that
  -- it owes name the transactions that it owed and then those of the synchronisations that began, in
  -- order, each once.
  pub sync_events-pending :
      (es : List (SyncEvent q l k)) (s s' : Lsq k) (sent : List (Request q))
      → sync_events es s ≡ ok (s', sent)
      → extra_datas q k sent ++ pending q k s' ≡ pending q k s ++ all_begun es
  unfolding sync_events
  sync_events-pending [] s s' sent h = ground (arith, h, append-nil (pending q k s))
  sync_events-pending (e ∷ es) s s' sent h = elim (Outcome-cases (sync_event e s)) [
    | inl stop ↦ absurd (ground (arith, h, stop))
    | inr ((s1, first), eq) ↦ elim (Outcome-cases (sync_events es s1)) [
      | inl stop ↦ absurd (ground (arith, h, eq, stop))
      | inr ((s2, more), eq1) ↦
          let ends : s' ≡ s2 = ground (arith, h, eq, eq1) in
          let all : sent ≡ first ++ more = ground (arith, h, eq, eq1) in
          let rest = sync_events-pending es s1 s2 more eq1 in
          ap₂ (λ x y. extra_datas q k x ++ pending q k y) all ends
          ∙ ap (λ x. x ++ pending q k s2) (extra_datas-append first more)
          ∙ append_assoc (extra_datas q k first) (extra_datas q k more) (pending q k s2)
          ∙ ap (λ x. extra_datas q k first ++ x) rest
          ∙ sym (append_assoc (extra_datas q k first) (pending q k s1) (all_begun es))
          ∙ ap (λ x. x ++ all_begun es) (sync_event-pending e s s1 first eq)
          ∙ append_assoc (pending q k s) (all_begun (e ∷ [])) (all_begun es)
          ∙ ap (λ x. pending q k s ++ x) (all_begun-cons e es)
    ]
  ]
