-- ===== src/Lsq/Runs.antt =====
-- Runs of the requests and of the synchronisation of src/cpu/o3/lsq.cc on small platforms, and
-- instances of their theorems.
use patch_tectreee.Base.{
  ℕ, ◌+◌, ◌<◌, ◌≡◌, refl, true, false, Option, none, some, List, [], ◌∷◌, map, replicate, length,
  arith, ◌++◌, All,
}
use patch_tectreee.Base.Outcome.{ok, ◌>>=◌}
use patch_tectreee.Request.Masks.{bit}
use patch_tectreee.Request.State.{Request, virtual_request}
use patch_tectreee.Request.Plain.{plain}
use patch_tectreee.Lsq.State.{
  LsqRequest, lsq_request, is_released, is_any_outstanding_request, set_complete,
}
use patch_tectreee.Lsq.Release.{Reason, release, packet_replied, destroy}
use patch_tectreee.Lsq.Packets.{
  reply_split, send_packet_split, recv_timing_resp_split, send_packets,
}
use patch_tectreee.Lsq.Push.{Access, Cpu}
use patch_tectreee.Lsq.Plain.{lsq_plain, unit_plain, load, fresh, packed}
use patch_tectreee.Lsq.Ownership
use patch_tectreee.Lsq.Delivery
use patch_tectreee.Lsq.Complete
use patch_tectreee.Lsq.Answers
use patch_tectreee.Lsq.Order
use patch_tectreee.Lsq.Settled
use patch_tectreee.Lsq.Partition
use patch_tectreee.Lsq.Made
use patch_tectreee.Lsq.Pushed

-- Two packets are on their way; the entry is discarded, and one reply comes.
abbrev sent_twice : LsqRequest plain lsq_plain
sent_twice = record fresh { num_outstanding_packets = 2 }

abbrev discarded_once : LsqRequest plain lsq_plain
discarded_once =
    let f = fresh.flags in
    record fresh { flags = record f { discarded = true }; num_outstanding_packets = 1 }

abbrev discard_run : List Ownership.Event
discard_run = Ownership.Event.released Reason.discarded ∷ Ownership.Event.replied ∷ []

discarded_once-run :
    Ownership.run plain lsq_plain discard_run (some sent_twice, load)
    ≡ ok (some discarded_once, load)
unfolding Ownership.run Ownership.step release is_any_outstanding_request lsq_request packet_replied
discarded_once-run = refl

sent_twice-IsOwned : Ownership.IsOwned plain lsq_plain sent_twice
unfolding is_released is_any_outstanding_request lsq_request
sent_twice-IsOwned = λ k. refl

run-IsOwned_example : Ownership.IsOwned plain lsq_plain discarded_once
run-IsOwned_example =
    Ownership.run-IsOwned plain lsq_plain discard_run sent_twice discarded_once load load
      sent_twice-IsOwned discarded_once-run

abbrev discarded_twice : LsqRequest plain lsq_plain
discarded_twice =
    let f = fresh.flags in
    record fresh { flags = record f { discarded = true }; num_outstanding_packets = 2 }

discarded_twice-is_released : is_released plain lsq_plain discarded_twice ≡ true
unfolding is_released lsq_request
discarded_twice-is_released = refl

discarded_twice-idle :
    (discarded_twice.num_in_translation_fragments ≡ 0)
    × Ownership.IsWritten plain lsq_plain discarded_twice
unfolding lsq_request
discarded_twice-idle = (refl, refl)

run-replied_example :
    Ownership.run plain lsq_plain (replicate 2 Ownership.Event.replied) (some discarded_twice, load)
    ≡ ok (none, load)
run-replied_example =
    Ownership.run-replied plain lsq_plain 1 discarded_twice load discarded_twice-is_released refl
      discarded_twice-idle.0 discarded_twice-idle.1

packed-IsCounted : Delivery.IsCounted plain lsq_plain unit_plain packed
unfolding lsq_request
packed-IsCounted = record { bounded = omega arith; few = omega arith; completed = refl }

packed-is_released : is_released plain lsq_plain packed ≡ false
unfolding is_released lsq_request
packed-is_released = refl

packed-total :
    (packed.num_received_packets + 1 + 1 ≡ length packed.packets)
    × All (λ i. i < length packed.packets) (1 ∷ [])
    × (0 < length packed.packets)
unfolding lsq_request
packed-total = (refl, (omega arith, tt), omega arith)

unit_plain-FreesIdle : Complete.FreesIdle plain lsq_plain unit_plain
unfolding is_released is_any_outstanding_request
unit_plain-FreesIdle p r inst n held freed = ground (arith, held, freed)

-- The unit frees the entry, and the request is deleted.
packed-run :
    Delivery.run plain lsq_plain unit_plain
      (Delivery.Move.send ∷ map Delivery.Move.reply (1 ∷ []) ++ Delivery.Move.reply 0 ∷ [])
      packed
      load
      0
    ≡ ok ((none, load), 2)
unfolding Delivery.run Delivery.move reply_split is_released send_packet_split lsq_request
    recv_timing_resp_split packet_replied send_packets set_complete destroy
    is_any_outstanding_request
packed-run = refl

run-complete_example :
    (r1 : LsqRequest plain lsq_plain) × (Delivery.run plain lsq_plain unit_plain
        (Delivery.Move.send ∷ map Delivery.Move.reply (1 ∷ []) ++ Delivery.Move.reply 0 ∷ [])
        packed
        load
        0
      ≡ ok (
        Complete.left_of plain lsq_plain unit_plain
            (Complete.accessed plain lsq_plain unit_plain r1 load
              (send_packet_split plain lsq_plain unit_plain packed 0).1).0,
        (Complete.accessed plain lsq_plain unit_plain r1 load
            (send_packet_split plain lsq_plain unit_plain packed 0).1).1,
      ))
    × (r1.flags.complete ≡ true)
    × (r1.packets ≡ packed.packets)
    × (r1.num_received_packets ≡ length packed.packets)
    × (r1.num_outstanding_packets ≡ 1)
    × ((Complete.accessed plain lsq_plain unit_plain r1 load
          (send_packet_split plain lsq_plain unit_plain packed 0).1).0.0.flags.complete
        ≡ true)
run-complete_example =
    Complete.run-complete plain lsq_plain unit_plain (1 ∷ []) 0 packed load 0 (λ b p port. refl)
      unit_plain-FreesIdle packed-IsCounted packed-is_released packed-total.1 packed-total.2
      packed-total.0

abbrev half : LsqRequest plain lsq_plain
half = record packed { num_outstanding_packets = 1; num_received_packets = 1 }

abbrev half_run : List Delivery.Move
half_run = Delivery.Move.send ∷ Delivery.Move.reply 0 ∷ []

half-run :
    Delivery.run plain lsq_plain unit_plain half_run packed load 0 ≡ ok ((some half, load), 2)
unfolding Delivery.run Delivery.move reply_split is_released send_packet_split lsq_request
    recv_timing_resp_split packet_replied send_packets
half-run = refl

run-IsCounted_example : Delivery.IsCounted plain lsq_plain unit_plain half
run-IsCounted_example =
    Complete.run-IsCounted plain lsq_plain unit_plain half_run packed half load load 0 2
      packed-IsCounted half-run

-- The second fragment faults, and its answer is the first to come.
abbrev answers : List (Option ℕ)
answers = none ∷ some 7 ∷ []

abbrev main : Request plain
main = virtual_request plain 7 62 4 (bit 11) 3 4096 0 none

-- The load enters the queue, and the translation does not answer at once.
abbrev cpu : Cpu plain lsq_plain
cpu = record {
  line = 64;
  now = 7;
  task_id = 2;
  accessor = 0;
  answers = λ r i. ok (r, i);
  access = λ is_load r i. (none, i);
}

abbrev word_load : Access plain lsq_plain
word_load = record {
  is_load = true;
  size = 4;
  addr = 62;
  flags = bit 11;
  res = none;
  amo_op = none;
  byte_enable = true ∷ true ∷ true ∷ true ∷ [];
  saved = none;
}
