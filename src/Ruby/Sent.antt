-- ===== src/Ruby/Sent.antt =====
-- What the constructors of a Ruby message and the conversions of its type promise.
-- Code: src/mem/ruby/slicc_interface/RubyRequest.hh and RubySlicc_Util.hh.
use patch_tectreee.Base.{
  ℕ, ◌≡◌, refl, ◌⊎◌, inl, inr, Bool, true, false, ◌||◌, if◌then◌else◌, none, some, List,
}
use patch_tectreee.Base.Outcome.{ok, abort, assert-if}
use patch_tectreee.Ruby.{RubyRequestType, is_htm_cmd_request, is_tlbi_cmd_request}
use patch_tectreee.Request.State.{RequestPlatform}
use patch_tectreee.Request.Query.{
  is_glc_set, is_slc_set, is_mem_mgmt, is_htm_cmd, is_tlbi_cmd, is_htm_start, is_htm_commit,
  is_htm_cancel, is_htm_abort, is_tlbi, is_tlbi_sync, is_tlbi_ext_sync, is_tlbi_ext_sync_comp,
}
use patch_tectreee.Ruby.Message.{
  MessagePlatform, RubyRequest, insert_tardis_tso_info, with_bypass_flags, with_packet,
  ruby_request, management_ruby_request, masked_ruby_request, atomic_ruby_request,
  htm_cmd_to_ruby_request_type, tlbi_cmd_to_ruby_request_type, get_request_ptr,
}

-- The first of four types whose test holds, all of one class.
first_class :
    (class : RubyRequestType → Bool) (t u v w : RubyRequestType)
    → (class t ≡ true) × (class u ≡ true) × (class v ≡ true) × (class w ≡ true)
    → (a b c d : Bool)
    → (((a || b || c || d) ≡ false)
        × ((if a then ok t else if b then ok u else if c then ok v else if d then ok w else abort)
            ≡ abort))
      ⊎ (((a || b || c || d) ≡ true)
          × (x : RubyRequestType) × ((if a
                then ok t
                else if b
                then ok u
                else if c
                then ok v
                else if d
                then ok w
                else abort)
              ≡ ok x)
          × (class x ≡ true))
first_class class t u v w h true b c d = inr (refl, t, refl, h.0)
first_class class t u v w h false true c d = inr (refl, u, refl, h.1)
first_class class t u v w h false false true d = inr (refl, v, refl, h.2)
first_class class t u v w h false false false true = inr (refl, w, refl, h.3)
first_class class t u v w h false false false false = inl (refl, refl)

module _ (q : RequestPlatform) (s : MessagePlatform q) where
  open q use {AtomicOpFunctor}
  open s use {Packet, req, RubyAccessMode, PrefetchBit, DataBlock, make_line_address, prefetch_no}

  -- None of the four constructors returns if it is given no packet, although each has a branch for
  -- that case.
  pub insert_tardis_tso_info-none :
      (now paddr len pc : ℕ) (type : RubyRequestType) (mode : RubyAccessMode) (pb : PrefetchBit)
      (proc_id core_id wm_size : ℕ) (wm : List Bool) (block : DataBlock)
      (ops : List (ℕ × AtomicOpFunctor)) (seq : ℕ)
      → (ruby_request q s now paddr len pc type mode none pb core_id ≡ abort)
        × (management_ruby_request q s now pc type mode none core_id ≡ abort)
        × (masked_ruby_request q s now paddr len pc type mode none pb proc_id core_id wm_size wm
              block seq
            ≡ abort)
        × (atomic_ruby_request q s now paddr len pc type mode none pb proc_id core_id wm_size wm
              block ops seq
            ≡ abort)
  unfolding insert_tardis_tso_info with_packet ruby_request management_ruby_request
      masked_ruby_request atomic_ruby_request
  insert_tardis_tso_info-none now paddr len pc type mode pb proc_id core_id wm_size wm block ops
        seq =
      (refl, refl, refl, refl)

  -- `m` carries the packet's request: its mark of a memory barrier, set or not or never written, and
  -- its two bypass flags.
  pub record Carries (m : RubyRequest q s) (packet : Packet) : Type 0 where
    pub barrier : m.is_mem_barrier ≡ (req packet).is_mem_barrier
    pub glc : m.is_glc_set ≡ is_glc_set q (req packet)
    pub slc : m.is_slc_set ≡ is_slc_set q (req packet)
    pub request_ptr : get_request_ptr q s m ≡ ok (req packet)

  -- With a packet, the first constructor succeeds with the line of the given address; the one for
  -- memory management succeeds exactly if the packet's request is for that. Both carry the request.
  pub ruby_request-Carries :
      (now paddr len pc : ℕ) (type : RubyRequestType) (mode : RubyAccessMode) (packet : Packet)
      (pb : PrefetchBit) (core_id : ℕ)
      → (m n : RubyRequest q s) × (ruby_request q s now paddr len pc type mode
            (some packet)
            pb
            core_id
          ≡ ok m)
        × (m.line_address ≡ some (make_line_address paddr))
        × Carries m packet
        × (management_ruby_request q s now pc type mode (some packet) core_id
            ≡ (if is_mem_mgmt q (req packet) then ok n else abort))
        × Carries n packet
  unfolding insert_tardis_tso_info with_packet ruby_request management_ruby_request
      with_bypass_flags get_request_ptr
  ruby_request-Carries now paddr len pc type mode packet pb core_id = (
    _,
    _,
    refl,
    refl,
    record { barrier = refl; glc = refl; slc = refl; request_ptr = refl },
    assert-if (is_mem_mgmt q (req packet)) _,
    record { barrier = refl; glc = refl; slc = refl; request_ptr = refl },
  )

  -- The conversion of a transactional command stops exactly if the packet's request is none, and
  -- otherwise gives a type of that class.
  pub htm_cmd_to_ruby_request_type-is_htm_cmd_request :
      (packet : Packet)
      → ((is_htm_cmd q (req packet) ≡ false) × (htm_cmd_to_ruby_request_type q s packet ≡ abort))
        ⊎ ((is_htm_cmd q (req packet) ≡ true)
            × (t : RubyRequestType) × (htm_cmd_to_ruby_request_type q s packet ≡ ok t)
            × (is_htm_cmd_request t ≡ true))
  unfolding is_htm_cmd htm_cmd_to_ruby_request_type is_htm_cmd_request
  htm_cmd_to_ruby_request_type-is_htm_cmd_request packet =
      first_class is_htm_cmd_request RubyRequestType.htm_start RubyRequestType.htm_commit
        RubyRequestType.htm_cancel RubyRequestType.htm_abort (refl, refl, refl, refl)
        (is_htm_start q (req packet)) (is_htm_commit q (req packet)) (is_htm_cancel q (req packet))
        (is_htm_abort q (req packet))

  -- The conversion of a command that invalidates translations stops exactly if the packet's request
  -- is none, and otherwise gives a type of that class.
  pub tlbi_cmd_to_ruby_request_type-is_tlbi_cmd_request :
      (packet : Packet)
      → ((is_tlbi_cmd q (req packet) ≡ false) × (tlbi_cmd_to_ruby_request_type q s packet ≡ abort))
        ⊎ ((is_tlbi_cmd q (req packet) ≡ true)
            × (t : RubyRequestType) × (tlbi_cmd_to_ruby_request_type q s packet ≡ ok t)
            × (is_tlbi_cmd_request t ≡ true))
  unfolding is_tlbi_cmd tlbi_cmd_to_ruby_request_type is_tlbi_cmd_request
  tlbi_cmd_to_ruby_request_type-is_tlbi_cmd_request packet =
      first_class is_tlbi_cmd_request RubyRequestType.tlbi RubyRequestType.tlbi_sync
        RubyRequestType.tlbi_ext_sync RubyRequestType.tlbi_ext_sync_comp (refl, refl, refl, refl)
        (is_tlbi q (req packet)) (is_tlbi_sync q (req packet)) (is_tlbi_ext_sync q (req packet))
        (is_tlbi_ext_sync_comp q (req packet))
