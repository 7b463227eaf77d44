-- ===== src/Lsq/Stale.antt =====
-- The wait for stale translations: `checkStaleTranslations`, `recvTimingSnoopReq` and `recvTimingResp`
-- of the class `LSQ` of src/cpu/o3/lsq.cc. `now` is `curTick()`, `id` is `dataRequestorId()`, and
-- `accepts` tells whether `sendTimingReq` takes a request.
use patch_tectreee.Base.{
  ℕ, Bool, true, false, not, if◌then◌else◌, Option, none, some, List, [], ◌∷◌, map, set,
}
use patch_tectreee.Base.Outcome.{Outcome, ok, ◌>>=◌, ◌>>◌, assert, deref}
use patch_tectreee.Request.Constants.{tlbi_ext_sync_comp}
use patch_tectreee.Request.State.{RequestPlatform, Request}
use patch_tectreee.Request.Access.{get_extra_data, set_extra_data}
use patch_tectreee.Request.Query.{is_tlbi_ext_sync, create_mem_management}
use patch_tectreee.Lsq.Platform.{LsqPlatform}
use patch_tectreee.Lsq.State.{Inst, LsqRequest}
use patch_tectreee.Lsq.Release.{Left, packet_replied}
use patch_tectreee.Lsq.Queue.{QueuePlatform, Lsq}
use patch_tectreee.Lsq.Threads.{unit_of}

-- A snoop: its packet, and the request that the packet may have.
pub record Snoop (q : RequestPlatform) (k : QueuePlatform) : Type 0 where
  pub packet : k.Packet
  pub req : Option (Request q)

-- What the queue is told of its surroundings during a call.
pub record Surroundings : Type 0 where
  pub now : ℕ
  pub id : ℕ
  pub accepts : Bool

module _ (q : RequestPlatform) (k : QueuePlatform) where
  open q use {word}
  open k use {LsqUnit, is_invalidate, check_snoop}

  -- Whether a unit still has a stale translation in use.
  unfoldable pub any_blocking : List LsqUnit → Bool
  any_blocking [] = false
  any_blocking (u ∷ us) = if k.check_stale_translations u then true else any_blocking us

  -- The queue, and the requests that were sent to the cache.
  abbrev pub Sent : Type 0
  Sent = Lsq k × List (Request q)

  -- The completion of a synchronisation.
  unfoldable pub completion : Surroundings → ℕ → Outcome (Request q)
  completion e txn_id = do
    req ← create_mem_management q e.now ((word 64).set (word 64).cleared tlbi_ext_sync_comp) e.id
    ok (set_extra_data q req txn_id)

  unfoldable pub check_stale_translations : Surroundings → Lsq k → Outcome Sent
  check_stale_translations e s = do
    assert s.waiting_for_stale_translation
    let all_done : Outcome Sent = (do
      req ← completion e s.stale_translation_wait_txn_id
      assert e.accepts
      ok (
        record s { waiting_for_stale_translation = false; stale_translation_wait_txn_id = 0 },
        req ∷ [],
      ))
    if any_blocking s.thread then ok (s, []) else all_done

  -- `recvTimingSnoopReq` where a synchronisation of translations begins.
  unfoldable pub begin_wait : Surroundings → Lsq k → Request q → Outcome Sent
  begin_wait e s req = do
    assert (not s.waiting_for_stale_translation)
    txn_id ← get_extra_data q req
    check_stale_translations e (record s {
      waiting_for_stale_translation = true;
      stale_translation_wait_txn_id = txn_id;
      thread = map k.start_stale_translation_flush s.thread;
    })

  -- The check at the end of `recvTimingResp`.
  unfoldable pub check_if_waiting : Surroundings → Lsq k → Outcome Sent
  check_if_waiting e s =
      let checked = check_stale_translations e s in
      if s.waiting_for_stale_translation then checked else ok (s, [])

  unfoldable pub recv_sync : Surroundings → Lsq k → Option (Request q) → Outcome Sent
  recv_sync e s none = ok (s, [])
  recv_sync e s (some req) =
      let waited = begin_wait e s req in if is_tlbi_ext_sync q req then waited else ok (s, [])

  unfoldable pub recv_timing_snoop_req : Surroundings → Lsq k → Snoop q k → Outcome Sent
  recv_timing_snoop_req e s pkt =
      let synced = recv_sync e s pkt.req in
      if is_invalidate pkt.packet
      then ok (record s { thread = map (check_snoop pkt.packet) s.thread }, [])
      else synced

module _ (q : RequestPlatform) (l : LsqPlatform) (k : QueuePlatform) where
  open k use {LsqUnit, is_invalidate, check_snoop}

  -- `recvTimingResp`: the sender of the packet, if its state is known, is a request with its
  -- instruction. `context_to_thread` is that of the CPU, and `respond` is `recvTimingResp` of the unit.
  unfoldable pub recv_timing_resp :
      (q.ContextId → ℕ)
      → (k.Packet → LsqRequest q l → LsqUnit → LsqRequest q l × LsqUnit)
      → Surroundings
      → Lsq k
      → k.Packet
      → Option (LsqRequest q l × Inst q l)
      → Outcome (Left q l × Sent q k)
  recv_timing_resp context_to_thread respond e s pkt sender = do
    (r, inst) ← deref sender
    let tid = context_to_thread inst.context_id
    u ← unit_of k s tid
    let (r', u') = respond pkt r u
    let units = set s.thread tid u'
    let s' : Lsq k = record s {
      thread = if is_invalidate pkt then map (check_snoop pkt) units else units;
    }
    left ← packet_replied q l r' inst
    sent ← check_if_waiting q k e s'
    ok (left, sent)
