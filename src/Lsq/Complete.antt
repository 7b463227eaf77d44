-- ===== src/Lsq/Complete.antt =====
-- A split access is complete when all of its packets are answered: src/cpu/o3/lsq.cc.
use patch_tectreee.Base.{
  ℕ, ◌+◌, ◌<◌, ◌≡◌, refl, sym, ap, subst, ◌∙◌, Bool, true, false, ◌==◌, none, some, List, [], ◌∷◌,
  map, length, All, arith, ◌⊎◌, inl, inr, ==_refl, ◌++◌, ==-ne, ◌%◌, ◌^◌, Bool-cases, if◌then◌else◌,
}
use patch_tectreee.Base.Outcome.{Outcome, ok, abort, ◌>>=◌}
use patch_tectreee.Request.State.{RequestPlatform}
use patch_tectreee.Lsq.Platform.{LsqPlatform}
use patch_tectreee.Lsq.State.{
  Inst, LsqPacket, LsqRequest, is_released, set_complete, is_any_outstanding_request,
}
use patch_tectreee.Lsq.Release.{Left, packet_replied, destroy}
use patch_tectreee.Lsq.Packets.{
  UnitPlatform, send_packets, skipped, send_packet_split, not_stale, assembled,
}
use patch_tectreee.Lsq.Delivery.{
  Move, send, reply, move, run, IsCounted, length-skipped, send-IsCounted, answered, reply-eq,
  reply-IsCounted, ended, reply-more, replied, counted,
}

module _ (q : RequestPlatform) (l : LsqPlatform) (u : UnitPlatform q l) where
  open u use {LsqUnit, try_send_packet, complete_data_access}

  move-IsCounted :
      (m : Move) (r r' : LsqRequest q l) (inst inst' : Inst q l) (port port' : LsqUnit)
      → IsCounted q l u r
      → move q l u m r inst port ≡ ok ((some r', inst'), port')
      → IsCounted q l u r'
  unfolding move
  move-IsCounted send r r' inst inst' port port' c h =
      let same : r' ≡ (send_packet_split q l u r port).0 = ground (arith, h) in
      subst (IsCounted q l u) (sym same) (send-IsCounted q l u r port c)
  move-IsCounted (reply i) r r' inst inst' port port' c h =
      reply-IsCounted q l u r r' inst inst' port port' i c h

  Moved-cases :
      (o : Outcome (Left q l × LsqUnit))
      → (o ≡ abort)
        ⊎ (((i : Inst q l) × (p : LsqUnit) × (o ≡ ok ((none, i), p)))
            ⊎ ((r : LsqRequest q l) × (i : Inst q l) × (p : LsqUnit) × (o ≡ ok ((some r, i), p))))
  Moved-cases abort = inl refl
  Moved-cases (ok ((none, i), p)) = inr (inl (i, p, refl))
  Moved-cases (ok ((some r, i), p)) = inr (inr (r, i, p, refl))

  -- The rest of a sequence of moves.
  abbrev follow : List Move → Outcome (Left q l × LsqUnit) → Outcome (Left q l × LsqUnit)
  follow ms o = do
    ((left, inst'), port') ← o
    elim left [ none ↦ ended q l u ms inst' port' | some r' ↦ run q l u ms r' inst' port' ]

  ended-some :
      (ms : List Move) (inst inst' : Inst q l) (port port' : LsqUnit) (r : LsqRequest q l)
      → ended q l u ms inst port ≡ ok ((some r, inst'), port')
      → ⊥
  ended-some [] inst inst' port port' r h = ground (arith, h)
  ended-some (m ∷ ms) inst inst' port port' r h = ground (arith, h)

  run_once :
      (m : Move) (r : LsqRequest q l) (inst : Inst q l) (port : LsqUnit)
      → run q l u (m ∷ []) r inst port ≡ move q l u m r inst port
  unfolding run
  run_once m r inst port = elim (Moved-cases (move q l u m r inst port)) [
    | inl stop ↦ rw (stop) refl
    | inr (inl (i, p, gone)) ↦ rw (gone) refl
    | inr (inr (r1, i, p, left)) ↦ rw (left) refl
  ]

  -- In whatever order the packets of a split access are sent, refused, sent again and answered: if
  -- the request is left, no more packets are answered or on their way than it has, and it is
  -- complete exactly if all are answered.
  pub run-IsCounted :
      (ms : List Move) (r r' : LsqRequest q l) (inst inst' : Inst q l) (port port' : LsqUnit)
      → IsCounted q l u r
      → run q l u ms r inst port ≡ ok ((some r', inst'), port')
      → IsCounted q l u r'
  unfolding run
  run-IsCounted [] r r' inst inst' port port' c h =
      let same : r' ≡ r = ground (arith, h) in subst (IsCounted q l u) (sym same) c
  run-IsCounted (m ∷ ms) r r' inst inst' port port' c h =
      elim (Moved-cases (move q l u m r inst port)) [
        | inl stop ↦ absurd (ground (arith, ap (follow ms) (sym stop) ∙ h))
        | inr (inl (i, p, gone)) ↦
            absurd (ended-some ms i inst' p port' r' (ap (follow ms) (sym gone) ∙ h))
        | inr (inr (r1, i, p, left)) ↦
            run-IsCounted ms r1 r' i inst' p port' (move-IsCounted m r r1 inst i port p c left)
              (ap (follow ms) (sym left) ∙ h)
      ]

  answered-IsCounted :
      (r : LsqRequest q l)
      → IsCounted q l u r
      → 0 < r.num_outstanding_packets
      → r.num_received_packets + 1 < length r.packets
      → IsCounted q l u (answered q l u r)
  answered-IsCounted r c out more = record {
    bounded = omega (arith, c.bounded, out);
    few = c.few;
    completed =
        c.completed
        ∙ ==-ne _ _ (λ e. omega (arith, e, more))
        ∙ sym (==-ne _ _ (λ e. omega (arith, e, more)));
  }

  -- A request with one answer to come, of those that a request `r` had to come.
  pub record IsAwaiting (r r1 : LsqRequest q l) : Type 0 where
    pub counts : IsCounted q l u r1
    pub held : is_released q l r1 ≡ false
    pub same_packets : r1.packets ≡ r.packets
    pub got : r1.num_received_packets + 1 ≡ length r1.packets
    pub out : r1.num_outstanding_packets ≡ 1

  run-replies :
      (is : List ℕ) (i : ℕ) (r : LsqRequest q l) (inst : Inst q l) (port : LsqUnit)
      → IsCounted q l u r
      → is_released q l r ≡ false
      → All (λ i. i < length r.packets) is
      → r.num_received_packets + length is + 1 ≡ length r.packets
      → r.num_received_packets + r.num_outstanding_packets ≡ length r.packets
      → (r1 : LsqRequest q l) × (run q l u (map reply is ++ reply i ∷ []) r inst port
          ≡ run q l u (reply i ∷ []) r1 inst port)
        × IsAwaiting r r1
  unfolding run move is_released
  run-replies [] i r inst port c held ats all sent = (
    r,
    refl,
    record {
      counts = c;
      held = held;
      same_packets = refl;
      got = omega (arith, all);
      out = omega (arith, all, sent);
    },
  )
  run-replies (j ∷ is) i r inst port c held (at, ats) all sent =
      let out : 0 < r.num_outstanding_packets = omega (arith, all, sent) in
      let more : r.num_received_packets + 1 < length r.packets = omega (arith, all) in
      let (r1, eq, k) =
        run-replies is i (answered q l u r) inst port (answered-IsCounted r c out more) held ats
          (omega (arith, all)) (omega (arith, sent, out)) in
      (
        r1,
        ap (follow (map reply is ++ reply i ∷ []))
              (reply-more q l u r inst port j c at out held more)
            ∙ eq,
        record {
          counts = k.counts;
          held = k.held;
          same_packets = k.same_packets;
          got = k.got;
          out = k.out;
        },
      )

  -- A cache that accepts every packet.
  abbrev Accepts : Type 0
  Accepts = (b : Bool) (p : LsqPacket) (port : LsqUnit) → (try_send_packet b p port).0 ≡ true

  send_packets-all :
      Accepts
      → (b : Bool) (ps : List LsqPacket) (port : LsqUnit)
      → (send_packets q l u b ps port).0 ≡ length ps
  unfolding send_packets
  send_packets-all accepts b [] port = refl
  send_packets-all accepts b (p ∷ ps) port =
      ground (arith, accepts b p port, send_packets-all accepts b ps (try_send_packet b p port).1)

  -- A unit that frees an entry as it completes the access has no other work for it.
  abbrev pub FreesIdle : Type 0
  FreesIdle =
      (p : LsqPacket) (r : LsqRequest q l) (inst : Inst q l) (port : LsqUnit)
      → is_released q l r ≡ false
      → is_released q l (complete_data_access p r inst port).0.0 ≡ true
      → is_any_outstanding_request q l
          (record (complete_data_access p r inst port).0.0 { num_outstanding_packets = 0 })
        ≡ false

  -- What is left of a request, and of the instruction, after its last answer.
  abbrev pub left_of : LsqRequest q l × Inst q l → Left q l
  left_of (r, inst) =
      if is_released q l r
      then (none, record inst { has_saved_request = false })
      else (some (record r { has_stale_translation = false; num_outstanding_packets = 0 }), inst)

  replied-last :
      (r : LsqRequest q l) (inst : Inst q l) (port : LsqUnit)
      → r.num_outstanding_packets ≡ 1
      → (is_released q l r ≡ true
          → is_any_outstanding_request q l (record r { num_outstanding_packets = 0 }) ≡ false)
      → replied q l u (ok (not_stale q l u ((r, inst), port))) ≡ ok (left_of (r, inst), port)
  unfolding packet_replied destroy is_released is_any_outstanding_request
  replied-last r inst port out idle = elim (Bool-cases (is_released q l r)) [
    | inl gone ↦ let free = idle gone in ground (arith, out, gone, free)
    | inr held ↦ ground (arith, out, held)
  ]

  -- The request that a unit gets when the last answer of `r` comes.
  abbrev pub completed : LsqRequest q l → LsqRequest q l
  completed r = set_complete q l (counted q l u r)

  -- What the unit makes of it.
  abbrev pub accessed : LsqRequest q l → Inst q l → LsqUnit → (LsqRequest q l × Inst q l) × LsqUnit
  accessed r inst port = complete_data_access (assembled q l u r) r inst port

  run-last :
      (r r1 : LsqRequest q l) (inst : Inst q l) (port : LsqUnit) (i : ℕ)
      → FreesIdle
      → IsAwaiting r r1
      → i < length r1.packets
      → run q l u (reply i ∷ []) r1 inst port
        ≡ ok (left_of (accessed (completed r1) inst port).0, (accessed (completed r1) inst port).1)
  unfolding move set_complete is_released
  run-last r r1 inst port i frees w at =
      let done = accessed (completed r1) inst port in
      let kept =
        u.complete_data_access-IsKept (assembled q l u (completed r1)) (completed r1) inst port in
      let last : ((r1.num_received_packets + 1) % 2 ^ 32 == length r1.packets) ≡ true =
        ap (λ n. n == length r1.packets) (omega (arith, w.got, w.counts.few))
        ∙ ==_refl (length r1.packets) in
      run_once (reply i) r1 inst port
      ∙ reply-eq q l u r1 inst port i at w.held
      ∙ rw (last) (
          replied-last done.0.0 done.0.1 done.1 (kept.same_outstanding ∙ w.out)
            (frees (assembled q l u (completed r1)) (completed r1) inst port w.held))

  -- Where the cache accepts every packet, the request's entry is held, and a unit that frees it has no
  -- other work for it: after the packets are sent and an answer has come for each that was not
  -- answered, the unit has completed the access once, at the last answer, with the request complete,
  -- all packets answered and one on its way. If the unit then has freed the entry, the request is
  -- deleted; if not, it is left, complete and with no packet on its way.
  pub run-complete :
      (is : List ℕ) (i : ℕ) (r : LsqRequest q l) (inst : Inst q l) (port : LsqUnit)
      → Accepts
      → FreesIdle
      → IsCounted q l u r
      → is_released q l r ≡ false
      → All (λ i. i < length r.packets) is
      → i < length r.packets
      → r.num_received_packets + length is + 1 ≡ length r.packets
      → (r1 : LsqRequest q l) × (run q l u (send ∷ map reply is ++ reply i ∷ []) r inst port
          ≡ ok (
            left_of (accessed r1 inst (send_packet_split q l u r port).1).0,
            (accessed r1 inst (send_packet_split q l u r port).1).1,
          ))
        × (r1.flags.complete ≡ true)
        × (r1.packets ≡ r.packets)
        × (r1.num_received_packets ≡ length r.packets)
        × (r1.num_outstanding_packets ≡ 1)
        × ((accessed r1 inst (send_packet_split q l u r port).1).0.0.flags.complete ≡ true)
  unfolding run move send_packet_split is_released set_complete
  run-complete is i r inst port accepts frees c held ats at all =
      let skip = r.num_received_packets + r.num_outstanding_packets in
      let rest = skipped q l u skip r.packets in
      let sent = send_packets-all accepts r.flags.is_load rest port in
      let rs : LsqRequest q l = (send_packet_split q l u r port).0 in
      let port' = (send_packet_split q l u r port).1 in
      let full : rs.num_received_packets + rs.num_outstanding_packets ≡ length rs.packets =
        omega (arith, sent, length-skipped q l u skip r.packets, c.bounded) in
      let (r1, eq, w) =
        run-replies is i rs inst port' (send-IsCounted q l u r port c) held ats all full in
      let at1 = subst (λ ps. i < length ps) (sym w.same_packets) at in
      let r2 : LsqRequest q l = completed r1 in
      let len = ap length w.same_packets in
      (
        r2,
        eq ∙ run-last rs r1 inst port' i frees w at1,
        refl,
        w.same_packets,
        omega (arith, w.got, w.counts.few, len),
        w.out,
        (u.complete_data_access-IsKept (assembled q l u r2) r2 inst port').same_complete,
      )
