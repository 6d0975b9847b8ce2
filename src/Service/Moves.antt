-- ===== src/Service/Moves.antt =====
-- The state machine of cdinit/dinit/src/service.cc: which services a stop moves, and where to.
pub mod Defs
pub mod Frozen
pub mod Stopping
pub mod DoStop
pub mod Process
