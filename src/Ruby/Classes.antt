-- ===== src/Ruby/Classes.antt =====
-- The classes of requests. Code: src/mem/ruby/slicc_interface/RubySlicc_Util.hh.
use patch_tectreee.Base.{ℕ, ◌+◌, ◌≤◌, Bool, true, false, arith}
use patch_tectreee.Ruby.{
  RubyRequestType, is_write_request, is_read_request, is_htm_cmd_request, is_tlbi_cmd_request,
}

abbrev pub flag : Bool → ℕ
flag true = 1
flag false = 0

-- A request type is in at most one of the four classes: writes, reads, transactional commands, and
-- invalidations of the translation buffer.
pub request_classes :
    (type : RubyRequestType)
    → flag (is_write_request type)
        + flag (is_read_request type)
        + flag (is_htm_cmd_request type)
        + flag (is_tlbi_cmd_request type)
      ≤ 1
unfolding is_write_request is_read_request is_htm_cmd_request is_tlbi_cmd_request
request_classes RubyRequestType.ld = omega arith
request_classes _ = omega arith
