-- ===== src/Request/Tests.antt =====
-- Runs of src/mem/request.hh on a small platform, and instances of its theorems.
use patch_tectreee.Base.{ℕ, ◌≡◌, refl, true, false, none, arith, ◌<◌, ◌+◌, ◌≤◌, if◌then◌else◌}
use patch_tectreee.Base.Outcome.{ok, abort}
use patch_tectreee.Request.Masks.{bit, either_of, both_of, nonzero}
use patch_tectreee.Request.Constants.{acquire, tlbi_sync, tlbi_cmd, htm_cmd}
use patch_tectreee.Request.State.{
  Request, virtual_request, set_virt, set_context, set_paddr, set_stream_id, split_on_vaddr,
  is_valid, has_flag, set_substream_id,
}
use patch_tectreee.Request.Plain.{plain}
use patch_tectreee.Request.Access.{
  get_paddr, get_vaddr, get_size, get_pc, set_pc, get_context_id, get_stream_id, is_masked,
  has_address, set_flags, has_paddr, has_vaddr, get_inst_count, set_inst_count, get_extra_data,
  set_extra_data, get_req_inst_seq_num, set_req_inst_seq_num, set_htm_abort_cause,
  get_htm_abort_cause, get_substream_id, has_stream_id,
}
use patch_tectreee.Request.Query.{
  is_acquire, is_read_modify_write, create_mem_management, is_htm_abort,
}
use patch_tectreee.Request.Virtual
use patch_tectreee.Request.Split
use patch_tectreee.Request.Commands
use patch_tectreee.Request.Built
use patch_tectreee.Request.Accessors

-- A load of four bytes at the address 62, which crosses a line of 64.
abbrev crossing : Request plain
crossing = virtual_request plain 7 62 4 (bit 11) 3 4096 5 none

has_vaddr-crossing : has_vaddr plain crossing ≡ true
unfolding has_vaddr virtual_request set_virt set_context nonzero
has_vaddr-crossing = refl

-- The same request, written out as an untranslated one.
crossing-IsUntranslated : Split.IsUntranslated plain crossing
unfolding has_vaddr has_paddr virtual_request set_virt set_context nonzero
crossing-IsUntranslated = record {
  virtual = refl;
  not_physical = refl;
  byte_enables = refl;
  size_bound = omega arith;
  end_bound = omega arith;
}

crossing-span : (crossing.vaddr < 64) × (64 < crossing.vaddr + crossing.size)
unfolding virtual_request set_virt set_context
crossing-span = (omega arith, omega arith)

virtual_request-IsUntranslated_example :
    (r : Request plain) × (r ≡ virtual_request plain 7 62 4 (bit 11) 3 4096 5 none)
    × Split.IsUntranslated plain r
    × (get_vaddr plain r ≡ ok 62)
    × (get_size plain r ≡ ok 4)
    × (get_pc plain r ≡ ok 4096)
    × (get_context_id plain r ≡ ok 5)
    × (is_masked plain r ≡ false)
virtual_request-IsUntranslated_example =
    Built.virtual_request-IsUntranslated plain 7 62 4 (bit 11) 3 4096 5 none (omega arith)
      (omega arith)

set_virt-IsPrepared_example :
    Virtual.IsPrepared plain crossing
      (set_virt plain crossing 9 256 8 (bit 8) 3 4100 none)
      9
      256
      8
      4100
      (bit 8)
set_virt-IsPrepared_example = Virtual.set_virt-IsPrepared plain crossing 9 256 8 3 4100 (bit 8) none

split_on_vaddr-IsSplit_example :
    (r1 r2 : Request plain) × (split_on_vaddr plain crossing 64 ≡ ok (r1, r2))
    × Split.IsSplit plain crossing 64 r1 r2
split_on_vaddr-IsSplit_example =
    Split.split_on_vaddr-IsSplit plain crossing 64 crossing-IsUntranslated crossing-span.0
      crossing-span.1

split_on_vaddr-is_mem_barrier_example :
    (r1 r2 : Request plain) × (split_on_vaddr plain crossing 64 ≡ ok (r1, r2))
    × (r1.is_mem_barrier ≡ none)
    × (r2.is_mem_barrier ≡ none)
    × (get_stream_id plain r1 ≡ get_stream_id plain (record crossing { stream_id = 0 }))
    × (get_stream_id plain r2 ≡ get_stream_id plain (record crossing { stream_id = 0 }))
split_on_vaddr-is_mem_barrier_example =
    Split.split_on_vaddr-is_mem_barrier plain crossing 64 crossing-IsUntranslated crossing-span.0
      crossing-span.1

setters-getters_example :
    ((get_paddr plain (set_paddr plain crossing 6) ≡ ok 6)
      × Accessors.AlsoValid plain crossing (set_paddr plain crossing 6) 1)
    × ((get_inst_count plain (set_inst_count plain crossing 6) ≡ ok 6)
        × Accessors.AlsoValid plain crossing (set_inst_count plain crossing 6) 11)
    × ((get_extra_data plain (set_extra_data plain crossing 6) ≡ ok 6)
        × Accessors.AlsoValid plain crossing (set_extra_data plain crossing 6) 7)
    × ((get_context_id plain (set_context plain crossing 2) ≡ ok 2)
        × Accessors.AlsoValid plain crossing (set_context plain crossing 2) 5)
    × ((get_stream_id plain (set_stream_id plain crossing 6) ≡ ok 6)
        × Accessors.AlsoValid plain crossing (set_stream_id plain crossing 6) 8)
    × ((get_pc plain (set_pc plain crossing 6) ≡ ok 6)
        × Accessors.AlsoValid plain crossing (set_pc plain crossing 6) 4)
    × ((get_req_inst_seq_num plain (set_req_inst_seq_num plain crossing 6) ≡ ok 6)
        × Accessors.AlsoValid plain crossing (set_req_inst_seq_num plain crossing 6) 3)
    × ((v : Request plain) × (set_substream_id plain crossing 6
          ≡ (if has_stream_id plain crossing then ok v else abort))
        × (get_substream_id plain v ≡ ok 6)
        × Accessors.AlsoValid plain crossing v 9)
    × ((v : Request plain) × (set_htm_abort_cause plain crossing 5
          ≡ (if is_htm_abort plain crossing then ok v else abort))
        × (get_htm_abort_cause plain v ≡ ok 5)
        × Accessors.AlsoValid plain crossing v 10)
setters-getters_example = Accessors.setters-getters plain crossing 6 2 5

crossing-time : (crossing.time ≤ 10)
unfolding virtual_request set_virt set_context
crossing-time = omega arith

create_mem_management-mask_example :
    (r : Request plain) × (create_mem_management plain 7 tlbi_sync 3
      ≡ (if nonzero 64 (both_of tlbi_sync (either_of tlbi_cmd htm_cmd)) then ok r else abort))
    × ((r.requestor_id ≡ 3) × (r.time ≡ 7))
    × ((n : ℕ) → n < 64 → has_flag plain r (bit n) ≡ tlbi_sync n)
    × ((n : ℕ) → n < 16 → is_valid plain r (bit n) ≡ false)
create_mem_management-mask_example = Commands.create_mem_management-mask plain 7 tlbi_sync 3

crossing-has_address : has_address plain crossing ≡ true
unfolding has_vaddr has_paddr virtual_request set_virt set_context nonzero
crossing-has_address = refl

set_flags-is_acquire_example :
    (v : Request plain) × (set_flags plain crossing acquire ≡ ok v)
    × (is_acquire plain v ≡ is_acquire plain crossing)
    × (is_read_modify_write plain v ≡ true)
set_flags-is_acquire_example = Commands.set_flags-is_acquire plain crossing crossing-has_address
