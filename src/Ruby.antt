-- ===== src/Ruby.antt =====
-- The types that the Ruby files share, and the classification of requests in
-- src/mem/ruby/slicc_interface/RubySlicc_Util.hh.
-- The two enumerations are declared outside the repository: each has the values that the code names,
-- and `other` for those that it does not.
pub mod Classes
pub mod Message
pub mod Functional
mod Sent
mod Copied
mod Tests
use patch_tectreee.Base.{ℕ, Bool, true, false, ◌||◌, if◌then◌else◌}
use patch_tectreee.Base.Outcome.{Outcome, ok, abort}

pub data AccessPermission : Type 0 where
  read_only read_write busy invalid not_present : AccessPermission
  other : ℕ → AccessPermission

abbrev pub is_not_present : AccessPermission → Bool
is_not_present not_present = true
is_not_present _ = false

pub data RubyRequestType : Type 0 where
  ld st atomic ifetch rmw_read rmw_write load_linked store_conditional : RubyRequestType
  locked_rmw_read locked_rmw_write flush null : RubyRequestType
  htm_start htm_commit htm_cancel htm_abort : RubyRequestType
  tlbi tlbi_sync tlbi_ext_sync tlbi_ext_sync_comp : RubyRequestType
  other : ℕ → RubyRequestType

pub is_write_request : RubyRequestType → Bool
is_write_request st = true
is_write_request atomic = true
is_write_request rmw_read = true
is_write_request rmw_write = true
is_write_request store_conditional = true
is_write_request locked_rmw_read = true
is_write_request locked_rmw_write = true
is_write_request flush = true
is_write_request _ = false

pub is_data_read_request : RubyRequestType → Bool
is_data_read_request ld = true
is_data_read_request load_linked = true
is_data_read_request _ = false

abbrev is_ifetch : RubyRequestType → Bool
is_ifetch ifetch = true
is_ifetch _ = false

pub is_read_request : RubyRequestType → Bool
unfolding is_data_read_request
is_read_request type = is_data_read_request type || is_ifetch type

pub is_htm_cmd_request : RubyRequestType → Bool
is_htm_cmd_request htm_start = true
is_htm_cmd_request htm_commit = true
is_htm_cmd_request htm_cancel = true
is_htm_cmd_request htm_abort = true
is_htm_cmd_request _ = false

pub is_tlbi_cmd_request : RubyRequestType → Bool
is_tlbi_cmd_request tlbi = true
is_tlbi_cmd_request tlbi_sync = true
is_tlbi_cmd_request tlbi_ext_sync = true
is_tlbi_cmd_request tlbi_ext_sync_comp = true
is_tlbi_cmd_request _ = false
