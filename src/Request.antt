-- ===== src/Request.antt =====
-- A memory request: src/mem/request.hh.
pub mod Masks
pub mod Constants
pub mod State
pub mod Access
pub mod Query
pub mod Bits
pub mod Virtual
mod Accessors
pub mod Split
mod Commands
mod Built
pub mod Plain
mod Tests
