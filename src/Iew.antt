-- ===== src/Iew.antt =====
-- The dispatch stage of the out-of-order CPU: src/cpu/o3/iew.cc and src/cpu/o3/iew.hh.
pub mod Stage
pub mod Dispatch
mod Kept
mod Signals
mod Credits
mod Cycle
mod Tests
