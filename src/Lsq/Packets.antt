-- ===== src/Lsq/Packets.antt =====
-- The packets of a memory operation: `buildPackets`, `sendPacketToCache` and `recvTimingResp` of
-- src/cpu/o3/lsq.cc, and `LSQ::recvTimingResp` for a response that invalidates nothing.
use patch_tectreee.Base.{
  ℕ, zero, suc, ◌+◌, ◌-◌, ◌%◌, ◌^◌, ◌≡◌, Bool, true, false, ◌&&◌, ltb, ◌==◌, if◌then◌else◌, Option,
  none, some, List, [], ◌∷◌, length, get_elem?,
}
use patch_tectreee.Base.Outcome.{Outcome, ok, abort, ◌>>=◌, ◌>>◌, assert, deref}
use patch_tectreee.Request.State.{RequestPlatform, Request}
use patch_tectreee.Request.Access.{get_vaddr, get_size, get_paddr, has_paddr}
use patch_tectreee.Lsq.Platform.{LsqPlatform}
use patch_tectreee.Lsq.State.{Inst, LsqPacket, LsqRequest, set_complete, is_released}
use patch_tectreee.Lsq.Release.{Left, packet_replied}

-- What the unit keeps of a request while it completes its access: the packets, how many of them are
-- answered and on their way, and that it is complete.
pub record IsKept {q : RequestPlatform} {l : LsqPlatform} (r r' : LsqRequest q l) : Type 0 where
  pub same_packets : r'.packets ≡ r.packets
  pub same_received : r'.num_received_packets ≡ r.num_received_packets
  pub same_outstanding : r'.num_outstanding_packets ≡ r.num_outstanding_packets
  pub same_complete : r'.flags.complete ≡ r.flags.complete

-- The `LSQUnit`, which is not in the repository: it tries to send a packet to the cache, completes an
-- access with a packet, and passes a response on to its request, if need be by whether the request's
-- entry is gone. As it completes an access it gets the request, through the packet's sender state,
-- and its instruction: it may free the request's entry, but not delete it, as a packet is on its way.
pub record UnitPlatform (q : RequestPlatform) (l : LsqPlatform) : Type 1 where
  pub LsqUnit : Type 0
  pub try_send_packet : Bool → LsqPacket → LsqUnit → Bool × LsqUnit
  pub complete_data_access :
      LsqPacket → LsqRequest q l → Inst q l → LsqUnit → (LsqRequest q l × Inst q l) × LsqUnit
  pub complete_data_access-IsKept :
      (p : LsqPacket) (r : LsqRequest q l) (inst : Inst q l) (port : LsqUnit)
      → IsKept r (complete_data_access p r inst port).0.0
  pub is_passed_on : Bool → Bool
  pub is_passed_on-held : is_passed_on false ≡ true

-- `memcpy` of `n` bytes from the place `i`, all of which must be there.
unfoldable pub copy_bytes : List ℕ → ℕ → ℕ → Outcome (List ℕ)
copy_bytes bytes i zero = ok []
copy_bytes bytes i (suc n) = do
  b ← deref (get_elem? bytes i)
  rest ← copy_bytes bytes (i + 1) n
  ok (b ∷ rest)

module _ (q : RequestPlatform) (l : LsqPlatform) where
  open l use {FaultObject}

  -- `SingleDataRequest::buildPackets`.
  unfoldable pub build_packets_single : LsqRequest q l → Inst q l → Outcome (LsqRequest q l)
  build_packets_single r inst = elim r.packets [
    | [] ↦ do
      req ← deref (get_elem? r.reqs 0)
      ok (record r {
        packets =
            record {
              is_read = r.flags.is_load;
              request = some 0;
              offset = 0;
              copied_bytes = none;
              htm_transaction = inst.htm_transaction_uid;
            }
            ∷ [];
      })
    | p ∷ ps ↦ assert (length (p ∷ ps) == 1) >> ok r
  ]

  -- The packet of the fragment `i`.
  unfoldable pub fragment_packet : LsqRequest q l → Inst q l → ℕ → Request q → Outcome LsqPacket
  fragment_packet r inst i req = do
    vaddr ← get_vaddr q req
    let offset = (vaddr + 2 ^ 64 - r.addr) % 2 ^ 64
    size ← get_size q req
    stored ←
        if r.flags.is_load
        then ok none
        else (do bytes ← copy_bytes inst.mem_data offset size; ok (some bytes))
    ok (record {
      is_read = r.flags.is_load;
      request = some i;
      offset = offset;
      copied_bytes = stored;
      htm_transaction = inst.htm_transaction_uid;
    })

  -- The loop of `SplitDataRequest::buildPackets`: up to the first fault.
  unfoldable pub fragment_packets :
      LsqRequest q l
      → Inst q l
      → ℕ
      → List (Request q)
      → List (Option FaultObject)
      → Outcome (List LsqPacket)
  fragment_packets r inst i [] faults = ok []
  fragment_packets r inst i (req ∷ reqs) [] = abort
  fragment_packets r inst i (req ∷ reqs) (some f ∷ faults) = ok []
  fragment_packets r inst i (req ∷ reqs) (none ∷ faults) = do
    p ← fragment_packet r inst i req
    ps ← fragment_packets r inst (suc i) reqs faults
    ok (p ∷ ps)

  -- `SplitDataRequest::buildPackets`.
  unfoldable pub build_packets_split : LsqRequest q l → Inst q l → Outcome (LsqRequest q l)
  build_packets_split r inst = elim r.packets [
    | [] ↦ do
      ps ← fragment_packets r inst 0 r.reqs r.faults
      assert (ltb 0 (length ps))
      ok (record r {
        packets = ps;
        main_packet =
            if r.flags.is_load
            then some (record {
              is_read = true;
              request = none;
              offset = 0;
              copied_bytes = none;
              htm_transaction = inst.htm_transaction_uid;
            })
            else r.main_packet;
      })
    | p ∷ ps ↦ ok r
  ]

  -- `SingleDataRequest::isCacheBlockHit`, with `& blockMask` as an argument.
  unfoldable pub is_cache_block_hit_single : (ℕ → ℕ) → LsqRequest q l → ℕ → Outcome Bool
  is_cache_block_hit_single masked r block_addr = do
    req ← deref (get_elem? r.reqs 0)
    paddr ← get_paddr q req
    ok (masked paddr == block_addr)

  -- `SplitDataRequest::isCacheBlockHit`: a fragment without a physical address is passed over.
  unfoldable pub is_any_hit : (ℕ → ℕ) → ℕ → List (Request q) → Bool
  is_any_hit masked block_addr [] = false
  is_any_hit masked block_addr (req ∷ reqs) =
      if has_paddr q req && (masked req.paddr == block_addr)
      then true
      else is_any_hit masked block_addr reqs

  unfoldable pub is_cache_block_hit_split : (ℕ → ℕ) → LsqRequest q l → ℕ → Bool
  is_cache_block_hit_split masked r block_addr = is_any_hit masked block_addr r.reqs

module _ (q : RequestPlatform) (l : LsqPlatform) (u : UnitPlatform q l) where
  open u use {LsqUnit, try_send_packet, complete_data_access, is_passed_on}

  -- `SingleDataRequest::sendPacketToCache`.
  unfoldable pub send_packet_single : LsqRequest q l → LsqUnit → Outcome (LsqRequest q l × LsqUnit)
  send_packet_single r port = do
    assert (r.num_outstanding_packets == 0)
    p ← deref (get_elem? r.packets 0)
    let (sent, port') = try_send_packet r.flags.is_load p port
    ok (if sent then (record r { num_outstanding_packets = 1 }, port') else (r, port'))

  -- The loop of `SplitDataRequest::sendPacketToCache` over the packets that were not sent before: it
  -- stops at one that the cache refuses. The result is how many were sent.
  unfoldable pub send_packets : Bool → List LsqPacket → LsqUnit → ℕ × LsqUnit
  send_packets is_load [] port = (0, port)
  send_packets is_load (p ∷ ps) port =
      let (sent, port') = try_send_packet is_load p port in
      let rest = send_packets is_load ps port' in if sent then (rest.0 + 1, rest.1) else (0, port')

  abbrev pub skipped : {A : Type 0} → ℕ → List A → List A
  skipped zero xs = xs
  skipped (suc n) [] = []
  skipped (suc n) (x ∷ xs) = skipped n xs

  unfoldable pub send_packet_split : LsqRequest q l → LsqUnit → LsqRequest q l × LsqUnit
  send_packet_split r port =
      let (n, port') =
        send_packets r.flags.is_load
          (skipped (r.num_received_packets + r.num_outstanding_packets) r.packets) port in
      (record r { num_outstanding_packets = r.num_outstanding_packets + n }, port')

  -- What is left of a request that a response has reached.
  abbrev pub not_stale :
      (LsqRequest q l × Inst q l) × LsqUnit → (LsqRequest q l × Inst q l) × LsqUnit
  not_stale ((r, inst), port) = ((record r { has_stale_translation = false }, inst), port)

  -- `SingleDataRequest::recvTimingResp` of the packet at the place `i`.
  unfoldable pub recv_timing_resp_single :
      LsqRequest q l → Inst q l → LsqUnit → ℕ → Outcome ((LsqRequest q l × Inst q l) × LsqUnit)
  recv_timing_resp_single r inst port i = do
    assert (r.num_outstanding_packets == 1)
    assert (i == 0)
    p ← deref (get_elem? r.packets i)
    ok (not_stale (complete_data_access p (set_complete q l r) inst port))

  -- The response to a split access that its last packet completes.
  abbrev pub assembled : LsqRequest q l → LsqPacket
  assembled r = record {
    is_read = r.flags.is_load;
    request = none;
    offset = 0;
    copied_bytes = none;
    htm_transaction = none;
  }

  -- `SplitDataRequest::recvTimingResp`.
  unfoldable pub recv_timing_resp_split :
      LsqRequest q l → Inst q l → LsqUnit → ℕ → Outcome ((LsqRequest q l × Inst q l) × LsqUnit)
  recv_timing_resp_split r inst port i = do
    p ← deref (get_elem? r.packets i)
    let r' : LsqRequest q l = record r {
      num_received_packets = (r.num_received_packets + 1) % 2 ^ 32;
    }
    ok (
        not_stale (
          if r'.num_received_packets == length r'.packets
          then complete_data_access (assembled r') (set_complete q l r') inst port
          else ((r', inst), port)))

  -- `LSQ::recvTimingResp` of a split access: the response, where the unit passes it on,
  -- then `packetReplied`.
  unfoldable pub reply_split :
      LsqRequest q l → Inst q l → LsqUnit → ℕ → Outcome (Left q l × LsqUnit)
  reply_split r inst port i = do
    ((r', inst'), port') ←
        if is_passed_on (is_released q l r)
        then recv_timing_resp_split r inst port i
        else ok ((r, inst), port)
    left ← packet_replied q l r' inst'
    ok (left, port')
