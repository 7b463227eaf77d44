-- ===== src/Cache/Sweep.antt =====
-- The loops over every set and way: `clearLockedAll`, `htmAbortTransaction`, `htmCommitTransaction`,
-- `recordCacheContents` of src/mem/ruby/structures/CacheMemory.cc.
use patch_tectreee.Base.{
  ℕ, ◌+◌, Bool, true, false, Option, none, some, List, [], ◌∷◌, ◌++◌, map, if◌then◌else◌,
}
use patch_tectreee.Ruby.{AccessPermission, RubyRequestType}
use patch_tectreee.Cache.Platform.{Platform}
use patch_tectreee.Cache.State.{Entry, CacheMemory}
use patch_tectreee.Cache.Modify.{map_option}

-- `b ? 1 : 0`.
abbrev pub bit : Bool → ℕ
bit true = 1
bit false = 0

-- One record of a `CacheRecorder`: the address, the type, the time and the data; the program counter
-- is always 0, the controller is the caller's.
pub record TraceRecord (p : Platform) : Type 0 where
  pub address : ℕ
  pub type : RubyRequestType
  pub time : ℕ
  pub block : p.Block

module _ (p : Platform) where
  open p use {holds, unlock, invalidate_entry}

  -- A change of every entry of a table.
  abbrev pub sweep :
      (Entry p → Entry p) → List (List (Option (Entry p))) → List (List (Option (Entry p)))
  sweep f t = map (map (map_option f)) t

  abbrev pub released : ℕ → Entry p → Entry p
  released context line =
      if holds line.locked context then record line { locked = unlock line.locked } else line

  unfoldable pub clear_locked_all : CacheMemory p → ℕ → CacheMemory p
  clear_locked_all c context = record c { cache = sweep (released context) c.cache }

  -- What an abort makes of a line: a line of the write set is invalidated, the line leaves both sets
  -- and is unlocked.
  abbrev pub aborted : Entry p → Entry p
  aborted line =
      if line.in_htm_write_set
      then record line {
        permission = (invalidate_entry line.permission line.data_blk).0;
        data_blk = (invalidate_entry line.permission line.data_blk).1;
        in_htm_write_set = false;
        in_htm_read_set = false;
        locked = unlock line.locked;
      }
      else record line {
        in_htm_write_set = false;
        in_htm_read_set = false;
        locked = unlock line.locked;
      }

  -- What a commit makes of a line.
  abbrev pub committed : Entry p → Entry p
  committed line = record line {
    in_htm_write_set = false;
    in_htm_read_set = false;
    locked = unlock line.locked;
  }

  -- The sizes of the read and of the write set so far, and the lines of a set as `f` leaves them.
  unfoldable pub htm_set :
      (Entry p → Entry p) → List (Option (Entry p)) → ℕ → ℕ → List (Option (Entry p)) × ℕ × ℕ
  htm_set f [] reads writes = ([], reads, writes)
  htm_set f (none ∷ lines) reads writes =
      let (rest, r, w) = htm_set f lines reads writes in (none ∷ rest, r, w)
  htm_set f (some line ∷ lines) reads writes =
      let (rest, r, w) =
        htm_set f lines (reads + bit line.in_htm_read_set) (writes + bit line.in_htm_write_set) in
      (some (f line) ∷ rest, r, w)

  unfoldable pub htm_sets :
      (Entry p → Entry p)
      → List (List (Option (Entry p)))
      → ℕ
      → ℕ
      → List (List (Option (Entry p))) × ℕ × ℕ
  htm_sets f [] reads writes = ([], reads, writes)
  htm_sets f (lines ∷ sets) reads writes =
      let (lines', r, w) = htm_set f lines reads writes in
      let (rest, r', w') = htm_sets f sets r w in (lines' ∷ rest, r', w')

  unfoldable pub htm_abort_transaction : CacheMemory p → CacheMemory p
  htm_abort_transaction c =
      let (sets, reads, writes) = htm_sets aborted c.cache 0 0 in
      let s = c.stats in
      record c {
        cache = sets;
        stats = record s {
          htm_trans_abort_read_set = reads ∷ s.htm_trans_abort_read_set;
          htm_trans_abort_write_set = writes ∷ s.htm_trans_abort_write_set;
        };
      }

  unfoldable pub htm_commit_transaction : CacheMemory p → CacheMemory p
  htm_commit_transaction c =
      let (sets, reads, writes) = htm_sets committed c.cache 0 0 in
      let s = c.stats in
      record c {
        cache = sets;
        stats = record s {
          htm_trans_commit_read_set = reads ∷ s.htm_trans_commit_read_set;
          htm_trans_commit_write_set = writes ∷ s.htm_trans_commit_write_set;
        };
      }

  -- The type under which a line is recorded; `null` for a line that is not.
  abbrev pub recorded_type : Bool → AccessPermission → RubyRequestType
  recorded_type icache AccessPermission.read_only =
      if icache then RubyRequestType.ifetch else RubyRequestType.ld
  recorded_type icache AccessPermission.read_write = RubyRequestType.st
  recorded_type icache _ = RubyRequestType.null

  abbrev pub trace_record : RubyRequestType → Entry p → Option (TraceRecord p)
  trace_record RubyRequestType.null line = none
  trace_record type line = some (record {
    address = line.address;
    type = type;
    time = line.last_access;
    block = line.data_blk;
  })

  -- The record of one line, if it has one.
  abbrev pub recorded : Bool → Entry p → Option (TraceRecord p)
  recorded icache line = trace_record (recorded_type icache line.permission) line

  abbrev pub add_record : Option (TraceRecord p) → List (TraceRecord p) → List (TraceRecord p)
  add_record none rest = rest
  add_record (some r) rest = r ∷ rest

  unfoldable pub record_set : Bool → List (Option (Entry p)) → List (TraceRecord p)
  record_set icache [] = []
  record_set icache (none ∷ lines) = record_set icache lines
  record_set icache (some line ∷ lines) =
      add_record (recorded icache line) (record_set icache lines)

  -- The records that `recordCacheContents` adds, in order.
  unfoldable pub record_sets : Bool → List (List (Option (Entry p))) → List (TraceRecord p)
  record_sets icache [] = []
  record_sets icache (lines ∷ sets) = record_set icache lines ++ record_sets icache sets

  unfoldable pub record_cache_contents : CacheMemory p → List (TraceRecord p)
  record_cache_contents c = record_sets c.is_icache c.cache
