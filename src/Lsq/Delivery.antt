-- ===== src/Lsq/Delivery.antt =====
-- The packets of a split access are all sent and all answered before it is complete.
-- Code: `SplitDataRequest::sendPacketToCache`, `SplitDataRequest::recvTimingResp` and
-- `LSQ::recvTimingResp` of src/cpu/o3/lsq.cc.
use patch_tectreee.Base.{
  ℕ, zero, suc, ◌+◌, ◌-◌, ◌%◌, ◌^◌, ◌<◌, ◌≤◌, ◌≡◌, refl, sym, ap, subst, ◌∙◌, Bool, true, false,
  ◌==◌, if◌then◌else◌, none, some, List, [], ◌∷◌, length, get_elem?, get_elem?_lt, arith,
  Bool-cases, Option-cases, inl, inr, ==-ne, ◌||◌,
}
use mathlib.Core.Path.{ap₂}
use patch_tectreee.Base.Outcome.{Outcome, ok, abort, ◌>>=◌}
use patch_tectreee.Request.State.{RequestPlatform}
use patch_tectreee.Lsq.Platform.{LsqPlatform}
use patch_tectreee.Lsq.State.{Inst, LsqPacket, LsqRequest, set_complete, is_released}
use patch_tectreee.Lsq.Release.{Left, packet_replied, destroy}
use patch_tectreee.Lsq.Ownership.{Left-cases}
use patch_tectreee.Lsq.Packets.{
  UnitPlatform, send_packets, skipped, send_packet_split, recv_timing_resp_split, reply_split,
  assembled, not_stale,
}

-- A packet is sent as far as the cache accepts, or the packet at a place is answered.
pub data Move : Type 0 where
  send : Move
  reply : ℕ → Move

module _ (q : RequestPlatform) (l : LsqPlatform) (u : UnitPlatform q l) where
  open u use {LsqUnit, try_send_packet, complete_data_access, is_passed_on}

  unfoldable pub move : Move → LsqRequest q l → Inst q l → LsqUnit → Outcome (Left q l × LsqUnit)
  move send r inst port =
      let (r', port') = send_packet_split q l u r port in ok ((some r', inst), port')
  move (reply i) r inst port = reply_split q l u r inst port i

  -- The end of a sequence of moves at the deletion of the request: no move befalls it later.
  abbrev pub ended : List Move → Inst q l → LsqUnit → Outcome (Left q l × LsqUnit)
  ended [] inst port = ok ((none, inst), port)
  ended (m ∷ ms) inst port = abort

  -- A sequence of moves.
  unfoldable pub run :
      List Move → LsqRequest q l → Inst q l → LsqUnit → Outcome (Left q l × LsqUnit)
  run [] r inst port = ok ((some r, inst), port)
  run (m ∷ ms) r inst port = do
    ((left, inst'), port') ← move m r inst port
    elim left [ none ↦ ended ms inst' port' | some r' ↦ run ms r' inst' port' ]

  -- The answered packets and those on their way are at most all, and the access is complete exactly
  -- if all are answered.
  pub record IsCounted (r : LsqRequest q l) : Type 0 where
    pub bounded : r.num_received_packets + r.num_outstanding_packets ≤ length r.packets
    pub few : length r.packets < 2 ^ 32
    pub completed : r.flags.complete ≡ (r.num_received_packets == length r.packets)

  pub length-skipped :
      {A : Type 0} (n : ℕ) (xs : List A) → length (skipped q l u n xs) ≡ length xs - n
  length-skipped zero xs = omega arith
  length-skipped (suc n) [] = omega arith
  length-skipped (suc n) (x ∷ xs) = omega (arith, length-skipped n xs)

  send_packets-le :
      (b : Bool) (ps : List LsqPacket) (port : LsqUnit)
      → (send_packets q l u b ps port).0 ≤ length ps
  unfolding send_packets
  send_packets-le b [] port = omega arith
  send_packets-le b (p ∷ ps) port = ground (
    arith,
    send_packets-le b ps (try_send_packet b p port).1,
    Bool-cases (try_send_packet b p port).0,
  )

  pub send-IsCounted :
      (r : LsqRequest q l) (port : LsqUnit)
      → IsCounted r
      → IsCounted (send_packet_split q l u r port).0
  unfolding send_packet_split
  send-IsCounted r port c =
      let rest = skipped q l u (r.num_received_packets + r.num_outstanding_packets) r.packets in
      let n = send_packets-le r.flags.is_load rest port in
      let k = length-skipped (r.num_received_packets + r.num_outstanding_packets) r.packets in
      record { bounded = omega (arith, n, k, c.bounded); few = c.few; completed = c.completed }

  -- The request after one more answer is counted.
  abbrev pub counted : LsqRequest q l → LsqRequest q l
  counted r = record r { num_received_packets = (r.num_received_packets + 1) % 2 ^ 32 }

  -- The request, the instruction and the unit that a response leaves.
  abbrev pub received : LsqRequest q l → Inst q l → LsqUnit → (LsqRequest q l × Inst q l) × LsqUnit
  received r inst port = not_stale q l u (
      if (r.num_received_packets + 1) % 2 ^ 32 == length r.packets
      then complete_data_access (assembled q l u (counted r)) (set_complete q l (counted r)) inst
          port
      else ((counted r, inst), port))

  recv-eq :
      (r : LsqRequest q l) (inst : Inst q l) (port : LsqUnit) (i : ℕ) (p : LsqPacket)
      → get_elem? r.packets i ≡ some p
      → recv_timing_resp_split q l u r inst port i ≡ ok (received r inst port)
  unfolding recv_timing_resp_split
  recv-eq r inst port i p eq = rw (eq) refl

  recv-none :
      (r : LsqRequest q l) (inst : Inst q l) (port : LsqUnit) (i : ℕ)
      → get_elem? r.packets i ≡ none
      → recv_timing_resp_split q l u r inst port i ≡ abort
  unfolding recv_timing_resp_split
  recv-none r inst port i eq = rw (eq) refl

  -- `r2` is the request `r` after a response.
  pub record IsReceived (r r2 : LsqRequest q l) : Type 0 where
    pub same_packets : r2.packets ≡ r.packets
    pub one_more : r2.num_received_packets ≡ (r.num_received_packets + 1) % 2 ^ 32
    pub same_outstanding : r2.num_outstanding_packets ≡ r.num_outstanding_packets
    pub completed :
        r2.flags.complete
        ≡ (((r.num_received_packets + 1) % 2 ^ 32 == length r.packets) || r.flags.complete)

  received-IsReceived :
      (r : LsqRequest q l) (inst : Inst q l) (port : LsqUnit)
      → IsReceived r (received r inst port).0.0
  unfolding set_complete
  received-IsReceived r inst port =
      let kept =
        u.complete_data_access-IsKept (assembled q l u (counted r)) (set_complete q l (counted r))
          inst port in
      elim (Bool-cases ((r.num_received_packets + 1) % 2 ^ 32 == length r.packets)) [
        | inl last ↦ rw (last) (record {
          same_packets = kept.same_packets;
          one_more = kept.same_received;
          same_outstanding = kept.same_outstanding;
          completed = kept.same_complete ∙ ap (λ b. b || r.flags.complete) (sym last);
        })
        | inr more ↦ rw (more) (record {
          same_packets = refl;
          one_more = refl;
          same_outstanding = refl;
          completed = ap (λ b. b || r.flags.complete) (sym more);
        })
      ]

  -- What follows the response of an answer.
  abbrev pub replied :
      Outcome ((LsqRequest q l × Inst q l) × LsqUnit) → Outcome (Left q l × LsqUnit)
  replied o = do ((r', inst'), port') ← o; left ← packet_replied q l r' inst'; ok (left, port')

  reply-recv :
      (r : LsqRequest q l) (inst : Inst q l) (port : LsqUnit) (i : ℕ)
      → is_passed_on (is_released q l r) ≡ true
      → reply_split q l u r inst port i ≡ replied (recv_timing_resp_split q l u r inst port i)
  unfolding reply_split
  reply-recv r inst port i passed = rw (passed) refl

  reply-not_passed :
      (r : LsqRequest q l) (inst : Inst q l) (port : LsqUnit) (i : ℕ)
      → is_passed_on (is_released q l r) ≡ false
      → reply_split q l u r inst port i ≡ replied (ok ((r, inst), port))
  unfolding reply_split
  reply-not_passed r inst port i passed = rw (passed) refl

  -- An answer for a packet of a request whose entry is held.
  pub reply-eq :
      (r : LsqRequest q l) (inst : Inst q l) (port : LsqUnit) (i : ℕ)
      → i < length r.packets
      → is_released q l r ≡ false
      → reply_split q l u r inst port i ≡ replied (ok (received r inst port))
  reply-eq r inst port i at held =
      let (p, eq) = get_elem?_lt r.packets i at in
      reply-recv r inst port i (ap is_passed_on held ∙ u.is_passed_on-held)
      ∙ ap replied (recv-eq r inst port i p eq)

  -- The request that an answer leaves that is not the last.
  abbrev pub answered : LsqRequest q l → LsqRequest q l
  answered r = record r {
    num_received_packets = r.num_received_packets + 1;
    has_stale_translation = false;
    num_outstanding_packets = r.num_outstanding_packets - 1;
  }

  pub reply-more :
      (r : LsqRequest q l) (inst : Inst q l) (port : LsqUnit) (i : ℕ)
      → IsCounted r
      → i < length r.packets
      → 0 < r.num_outstanding_packets
      → is_released q l r ≡ false
      → r.num_received_packets + 1 < length r.packets
      → reply_split q l u r inst port i ≡ ok ((some (answered r), inst), port)
  unfolding packet_replied is_released
  reply-more r inst port i c at out held more =
      let m : (r.num_received_packets + 1) % 2 ^ 32 ≡ r.num_received_packets + 1 =
        omega (arith, c.few, more) in
      let differs : (r.num_received_packets + 1 == length r.packets) ≡ false =
        ==-ne _ _ (λ e. omega (arith, e, more)) in
      reply-eq r inst port i at held ∙ rw (m, differs) (ground (arith, out, held))

  IsCounted-replied :
      (r r2 : LsqRequest q l)
      → IsCounted r
      → IsReceived r r2
      → 0 < r.num_outstanding_packets
      → IsCounted (record r2 { num_outstanding_packets = r2.num_outstanding_packets - 1 })
  IsCounted-replied r r2 c k out =
      let m : (r.num_received_packets + 1) % 2 ^ 32 ≡ r.num_received_packets + 1 =
        omega (arith, c.bounded, c.few, out) in
      let n : (r.num_received_packets == length r.packets) ≡ false =
        ==-ne _ _ (λ e. omega (arith, e, c.bounded, out)) in
      let len = ap length k.same_packets in
      let got = k.one_more in
      let sent = k.same_outstanding in
      record {
        bounded = omega (arith, m, len, got, sent, c.bounded, out);
        few = omega (arith, len, c.few);
        completed =
            k.completed
            ∙ ap₂ ◌||◌ (ap (λ j. j == length r.packets) (sym got)) (c.completed ∙ n)
            ∙ ground (arith, len, Bool-cases (r2.num_received_packets == length r.packets));
      }

  packet_replied-left :
      (r r' : LsqRequest q l) (inst inst' : Inst q l)
      → packet_replied q l r inst ≡ ok (some r', inst')
      → (0 < r.num_outstanding_packets)
        × (r' ≡ record r { num_outstanding_packets = r.num_outstanding_packets - 1 })
  unfolding packet_replied destroy
  packet_replied-left r r' inst inst' h = (ground (arith, h), ground (arith, h))

  -- What is left after `packetReplied`.
  left-IsCounted :
      (r r' : LsqRequest q l) (inst inst' : Inst q l) (port port' : LsqUnit)
      → ((0 < r.num_outstanding_packets)
          → IsCounted (record r { num_outstanding_packets = r.num_outstanding_packets - 1 }))
      → replied (ok ((r, inst), port)) ≡ ok ((some r', inst'), port')
      → IsCounted r'
  left-IsCounted r r' inst inst' port port' c h =
      elim (Left-cases q l (packet_replied q l r inst)) [
        | inl stop ↦ absurd (ground (arith, stop, h))
        | inr (inl (i1, gone)) ↦ absurd (ground (arith, gone, h))
        | inr (inr (r1, i1, left)) ↦
            let same : r' ≡ r1 = ground (arith, left, h) in
            let (out, eq1) = packet_replied-left r r1 inst i1 left in
            subst IsCounted (sym (same ∙ eq1)) (c out)
      ]

  pub reply-IsCounted :
      (r r' : LsqRequest q l) (inst inst' : Inst q l) (port port' : LsqUnit) (i : ℕ)
      → IsCounted r
      → reply_split q l u r inst port i ≡ ok ((some r', inst'), port')
      → IsCounted r'
  reply-IsCounted r r' inst inst' port port' i c h =
      elim (Bool-cases (is_passed_on (is_released q l r))) [
        | inl passed ↦
            let step = sym (reply-recv r inst port i passed) ∙ h in
            elim (Option-cases (get_elem? r.packets i)) [
              | inl missing ↦
                  absurd (ground (arith, sym (ap replied (recv-none r inst port i missing)) ∙ step))
              | inr (p, eq) ↦
                  let got = received-IsReceived r inst port in
                  left-IsCounted (received r inst port).0.0 r' (received r inst port).0.1 inst'
                    (received r inst port).1 port'
                    (λ out.
                      IsCounted-replied r (received r inst port).0.0 c got
                        (subst (λ n. 0 < n) got.same_outstanding out))
                    (sym (ap replied (recv-eq r inst port i p eq)) ∙ step)
            ]
        | inr kept ↦
            left-IsCounted r r' inst inst' port port'
              (λ out. record {
                bounded = omega (arith, out, c.bounded);
                few = c.few;
                completed = c.completed;
              })
              (sym (reply-not_passed r inst port i kept) ∙ h)
      ]
