-- ===== src/Lsq.antt =====
-- The load/store queue of the out-of-order CPU: src/cpu/o3/lsq.hh and src/cpu/o3/lsq.cc.
pub mod Platform
pub mod State
pub mod Release
mod Plain
mod Tests
mod Runs
mod Ownership
pub mod Fragments
pub mod Translation
pub mod Packets
pub mod Push
pub mod Queue
pub mod Threads
pub mod Stale
mod Lines
mod Partition
mod Whole
mod Answers
mod Order
mod Settled
mod Delivery
mod Complete
mod Ports
mod Full
mod Retry
mod Sync
mod Completions
mod Made
mod Pushed
