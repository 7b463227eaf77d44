-- ===== src/Cache.antt =====
-- The set-associative cache of src/mem/ruby/structures/CacheMemory.cc and CacheMemory.hh.
pub mod Platform
pub mod State
pub mod Access
pub mod Update
pub mod Cells
pub mod Invariant
pub mod Init
pub mod Room
pub mod Placing
pub mod Allocate
pub mod Deallocate
pub mod Replace
pub mod Modify
pub mod Touch
pub mod Sweep
pub mod Swept
pub mod Htm
pub mod Stats
pub mod Recorded
mod Simple
mod Tests
