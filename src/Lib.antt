-- ===== src/Lib.antt =====
-- Verification library of the TARDIS-TSO TEC-tree patch for gem5.
--
-- The patch adds an integrity tree of counters to a coherence protocol. The data lines of the memory
-- are covered by counter lines of level 1, those by level 2, and so on up to level 6, whose three
-- lines stand below three root registers on chip. The directory keeps data and counters in one
-- shared cache, asks for the nearest counter that the cache lacks, and evicts lines to make room.
--
-- Files, and the code that they model:
-- - TecTree and its children: src/mem/ruby/slicc_interface/RubySlicc_Util.hh (the level bases,
--   getParentAddr, addressToInt) and, of learning_gem5/tardis_tso_tectree/TARDISTSO_TECTREE-dir.sm
--   under src, getFirstMissingParent, getL6Index and the action incrementRootCounter. Addresses are
--   64-bit words as natural numbers, with the wrap-around of sums and differences written out; a C++
--   int is a sum of its non-negative and negative values. Levels has the geometry, Walk the walk to
--   the top, Root the root registers, which overflow at 2 ^ 31 - 1 as the int that each of them is,
--   Beyond the addresses above the metadata.
-- - Ruby and its children: the classification of requests and the functional accesses of
--   RubySlicc_Util.hh (Classes, Functional; theorems in Classes and Copied), and the constructors of
--   src/mem/ruby/slicc_interface/RubyRequest.hh (Message; theorems in Sent).
-- - Request and its children: src/mem/request.hh. Masks has words of flags, Constants the flags,
--   State the members, the constructors, setVirt and splitOnVaddr, Access the accessors, Query the
--   questions about flags. A member that no constructor writes is none until it is written. Bits has
--   the lemmas on masks; Virtual, Accessors, Split, Commands and Built have the theorems. Sizes and
--   addresses are words of 32 and 64 bits, with their wrap-around.
-- - Cache and its children: src/mem/ruby/structures/CacheMemory.cc and CacheMemory.hh. State has the
--   members and the constructor, Access the reading operations, Update those that change one entry,
--   Sweep the loops over all entries, Stats the bank reservations and counters. A failed assertion, a
--   panic, a null pointer that is dereferenced and an index out of range are the outcome abort. A
--   slot owns its entry; a write through a pointer that lookup gave is a write to the slot that it
--   read. Invariant has the well-formedness of a cache and the map from addresses to entries that it
--   stands for; Cells, Modify and Swept have the lemmas on tables; Init, Room, Placing, Allocate,
--   Deallocate, Replace, Touch, Htm and Recorded have the theorems about what their names say.
-- - Lsq and its children: the load/store queue of src/cpu/o3/lsq.hh and src/cpu/o3/lsq.cc (under src).
--   State has the flags and members of a request and its questions about them, Release who frees it,
--   Fragments how addReq and initiateTranslation cut an access into requests, Translation the two
--   methods finish, Packets the packets, their sending and their answers, Push the method pushRequest.
--   Queue has the class LSQ, its constructor and its ports to the cache, Threads what it asks and does
--   of the units of its threads (a unit that sends packets gets, and may change, the members of the
--   queue that it reaches through its pointer), Stale the snoops, the responses and the wait for
--   stale translations.
--   The single, the split and the command request are one record, whose operations end in single,
--   split and direct where they differ; a request that was deleted is none. Sequences of events are
--   lists: Ownership has releases and replies, Order and Settled the answers of the translation,
--   Delivery and Complete the packets, Ports the accesses of a cycle, Completions what befalls the
--   wait. Lines, Partition, Whole, Made and Pushed have the lemmas and the theorem on split accesses.
-- - Iew and its children: dispatch in the stage IEW, src/cpu/o3/iew.cc (under src), for one thread.
--   Stage has the state and checkSignalsAndUpdate, Dispatch the method dispatch; Kept lifts an
--   invariant of the parts to dispatch; Credits, Signals and Cycle have the invariants.
-- - Base: Boolean tests, lists over native numbers, the outcome type.
--
-- What the code calls and the repository does not have is a parameter: the record Platform of
-- Cache/Platform.antt holds the address helpers, the replacement policy, the lock methods and
-- invalidateEntry of an entry, with the laws that they document, and Cache/Simple.antt is a concrete
-- one that meets them. Likewise RequestPlatform of Request/State.antt (gem5::Flags and the
-- identifiers), MessagePlatform of Ruby/Message.antt, LsqPlatform of Lsq/Platform.antt, UnitPlatform
-- of Lsq/Packets.antt and QueuePlatform of Lsq/Queue.antt (the LSQUnit, the stage IEW, the line
-- arithmetic of base/ and cpu/utils.hh), Cpu of Lsq/Push.antt (the answers of the translation that
-- come before initiateTranslation returns, which here come after all fragments were sent), and
-- BlockPlatform of Ruby/Functional.antt (data blocks and write masks), with Request/Plain.antt. The
-- values of an enumeration that is declared elsewhere are those that the code names, and one more
-- case for the others.
--
-- Bounds: fuel is in the walk of TecTree/Walk.antt, where six steps reach the top from any address of a
-- level; in the loop over whole lines of Lsq/Fragments.antt, which has one step more than the access
-- has bytes, enough as each line has a byte; and in sqFull of Lsq/Threads.antt, where it is the depth
-- of the stack. The loops of the cache are recursions over the lists that they traverse.
-- Integers of the cache (sizes, ways, counters) are natural numbers, as they are never negative but
-- for the result -1 of a search and the lock value -1, which are none; their overflow is not
-- modelled.
--
-- A unit that completes an access gets the request and the instruction and may free the request's
-- entry; that it keeps the request's packets, their counts and that it is complete is a law of
-- UnitPlatform. As it tries to send a packet a unit also marks the request as sent or to be tried
-- again; no operation modelled here reads these two marks, and a try to send leaves them as they are.
--
-- Not modelled: execution and write-back in the stage IEW (src/cpu/o3/iew.cc), whose queues are the
-- parameter IewPlatform of Iew/Stage.antt, and the dynamic instruction (src/cpu/o3/dyn_inst.hh), the
-- data port and the local accesses of its load/store queue, and the queue's methods that only pass a
-- question on to one unit; the timing CPU (src/cpu/simple), the transitions of the directory other
-- than the functions above, the cache and DMA controllers, printing and debug output, and the Python
-- configuration.
pub mod Base
pub mod TecTree
pub mod Ruby
pub mod Cache
pub mod Request
pub mod Lsq
pub mod Iew
