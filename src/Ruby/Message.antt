-- ===== src/Ruby/Message.antt =====
-- The message that carries a request to a Ruby controller, and the conversions from a packet's
-- request: src/mem/ruby/slicc_interface/RubyRequest.hh and RubySlicc_Util.hh.
use patch_tectreee.Base.{ℕ, Bool, false, if◌then◌else◌, Option, none, some, List}
use patch_tectreee.Base.Outcome.{Outcome, ok, abort, ◌>>=◌, ◌>>◌, assert, deref}
use patch_tectreee.Ruby.{RubyRequestType}
use patch_tectreee.Request.State.{RequestPlatform, Request}
use patch_tectreee.Request.Query.{
  is_glc_set, is_slc_set, is_mem_mgmt, is_htm_start, is_htm_commit, is_htm_cancel, is_htm_abort,
  is_tlbi, is_tlbi_sync, is_tlbi_ext_sync, is_tlbi_ext_sync_comp,
}

-- Types of the message's members that are declared elsewhere, the constructors of `WriteMask`, and
-- `makeLineAddress`. Every packet has a request.
pub record MessagePlatform (q : RequestPlatform) : Type 1 where
  pub Packet : Type 0
  pub req : Packet → Request q
  pub RubyAccessMode : Type 0
  pub PrefetchBit : Type 0
  pub prefetch_no : PrefetchBit
  pub WriteMask : Type 0
  pub no_mask : WriteMask
  pub mask_of : ℕ → List Bool → WriteMask
  pub mask_with_atomics : ℕ → List Bool → List (ℕ × q.AtomicOpFunctor) → WriteMask
  pub DataBlock : Type 0
  pub no_data : DataBlock
  pub make_line_address : ℕ → ℕ

-- A member that no initialiser writes is `none`.
pub record RubyRequest (q : RequestPlatform) (s : MessagePlatform q) : Type 0 where
  pub cur_time : ℕ
  pub physical_address : ℕ
  pub line_address : Option ℕ
  pub type : RubyRequestType
  pub program_counter : ℕ
  pub access_mode : s.RubyAccessMode
  pub size : ℕ
  pub prefetch : s.PrefetchBit
  pub pkt : Option s.Packet
  pub context_id : ℕ
  pub write_mask : s.WriteMask
  pub wt_data : s.DataBlock
  pub wfid : Option ℕ
  pub inst_seq_num : Option ℕ
  pub htm_from_transaction : Bool
  pub htm_transaction_uid : ℕ
  pub is_tlbi : Bool
  pub tlbi_transaction_uid : ℕ
  pub is_glc_set : Bool
  pub is_slc_set : Bool
  pub is_mem_barrier : Option Bool

module _ (q : RequestPlatform) (s : MessagePlatform q) where
  open q use {AtomicOpFunctor}
  open s use {
    Packet, req, RubyAccessMode, PrefetchBit, prefetch_no, no_mask, mask_of, mask_with_atomics,
    DataBlock, no_data, make_line_address,
  }

  -- The members that all constructors initialise alike.
  abbrev pub initialised :
      ℕ
      → ℕ
      → ℕ
      → ℕ
      → RubyRequestType
      → RubyAccessMode
      → Option Packet
      → PrefetchBit
      → ℕ
      → RubyRequest q s
  initialised cur_time paddr len pc type access_mode pkt pb core_id = record {
    cur_time = cur_time;
    physical_address = paddr;
    line_address = none;
    type = type;
    program_counter = pc;
    access_mode = access_mode;
    size = len;
    prefetch = pb;
    pkt = pkt;
    context_id = core_id;
    write_mask = no_mask;
    wt_data = no_data;
    wfid = none;
    inst_seq_num = none;
    htm_from_transaction = false;
    htm_transaction_uid = 0;
    is_tlbi = false;
    tlbi_transaction_uid = 0;
    is_glc_set = false;
    is_slc_set = false;
    is_mem_barrier = none;
  }

  -- `InsertTardisTSOInfo`.
  unfoldable pub insert_tardis_tso_info :
      RubyRequest q s → Option Packet → Outcome (RubyRequest q s)
  insert_tardis_tso_info m pkt = do
    packet ← deref pkt
    ok (record m { is_mem_barrier = (req packet).is_mem_barrier })

  -- The branch of the constructors on the packet.
  unfoldable pub with_bypass_flags : RubyRequest q s → Option Packet → RubyRequest q s
  with_bypass_flags m none = record m { is_glc_set = false; is_slc_set = false }
  with_bypass_flags m (some packet) = record m {
    is_glc_set = is_glc_set q (req packet);
    is_slc_set = is_slc_set q (req packet);
  }

  -- The body that three of the constructors share.
  unfoldable pub with_packet : RubyRequest q s → Outcome (RubyRequest q s)
  with_packet m = do
    m' ← insert_tardis_tso_info m m.pkt
    ok (
        with_bypass_flags
          (record m' { line_address = some (make_line_address m'.physical_address) }) m'.pkt)

  unfoldable pub ruby_request :
      ℕ
      → ℕ
      → ℕ
      → ℕ
      → RubyRequestType
      → RubyAccessMode
      → Option Packet
      → PrefetchBit
      → ℕ
      → Outcome (RubyRequest q s)
  ruby_request cur_time paddr len pc type access_mode pkt pb core_id =
      with_packet (initialised cur_time paddr len pc type access_mode pkt pb core_id)

  -- `RubyRequest for memory management commands`.
  unfoldable pub management_ruby_request :
      ℕ → ℕ → RubyRequestType → RubyAccessMode → Option Packet → ℕ → Outcome (RubyRequest q s)
  management_ruby_request cur_time pc type access_mode pkt core_id = do
    m ←
        insert_tardis_tso_info
          (initialised cur_time 0 0 pc type access_mode pkt prefetch_no core_id) pkt
    packet ← deref pkt
    assert (is_mem_mgmt q (req packet))
    ok (with_bypass_flags m pkt)

  unfoldable pub masked_ruby_request :
      ℕ
      → ℕ
      → ℕ
      → ℕ
      → RubyRequestType
      → RubyAccessMode
      → Option Packet
      → PrefetchBit
      → ℕ
      → ℕ
      → ℕ
      → List Bool
      → DataBlock
      → ℕ
      → Outcome (RubyRequest q s)
  masked_ruby_request cur_time paddr len pc type access_mode pkt pb proc_id core_id wm_size wm_mask
        block inst_seq_num =
      with_packet (record (initialised cur_time paddr len pc type access_mode pkt pb core_id) {
        write_mask = mask_of wm_size wm_mask;
        wt_data = block;
        wfid = some proc_id;
        inst_seq_num = some inst_seq_num;
      })

  unfoldable pub atomic_ruby_request :
      ℕ
      → ℕ
      → ℕ
      → ℕ
      → RubyRequestType
      → RubyAccessMode
      → Option Packet
      → PrefetchBit
      → ℕ
      → ℕ
      → ℕ
      → List Bool
      → DataBlock
      → List (ℕ × AtomicOpFunctor)
      → ℕ
      → Outcome (RubyRequest q s)
  atomic_ruby_request cur_time paddr len pc type access_mode pkt pb proc_id core_id wm_size wm_mask
        block atomic_ops inst_seq_num =
      with_packet (record (initialised cur_time paddr len pc type access_mode pkt pb core_id) {
        write_mask = mask_with_atomics wm_size wm_mask atomic_ops;
        wt_data = block;
        wfid = some proc_id;
        inst_seq_num = some inst_seq_num;
      })

  unfoldable pub get_request_ptr : RubyRequest q s → Outcome (Request q)
  get_request_ptr m = do packet ← deref m.pkt; ok (req packet)

  -- `htmCmdToRubyRequestType`.
  unfoldable pub htm_cmd_to_ruby_request_type : Packet → Outcome RubyRequestType
  htm_cmd_to_ruby_request_type pkt =
      if is_htm_start q (req pkt)
      then ok RubyRequestType.htm_start
      else if is_htm_commit q (req pkt)
      then ok RubyRequestType.htm_commit
      else if is_htm_cancel q (req pkt)
      then ok RubyRequestType.htm_cancel
      else if is_htm_abort q (req pkt)
      then ok RubyRequestType.htm_abort
      else abort

  -- `tlbiCmdToRubyRequestType`.
  unfoldable pub tlbi_cmd_to_ruby_request_type : Packet → Outcome RubyRequestType
  tlbi_cmd_to_ruby_request_type pkt =
      if is_tlbi q (req pkt)
      then ok RubyRequestType.tlbi
      else if is_tlbi_sync q (req pkt)
      then ok RubyRequestType.tlbi_sync
      else if is_tlbi_ext_sync q (req pkt)
      then ok RubyRequestType.tlbi_ext_sync
      else if is_tlbi_ext_sync_comp q (req pkt)
      then ok RubyRequestType.tlbi_ext_sync_comp
      else abort
