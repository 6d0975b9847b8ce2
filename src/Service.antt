-- ===== src/Service.antt =====
-- cdinit/dinit/src/service.cc and cdinit/dinit/src/includes/service.h: services, their dependencies,
-- and their transitions.
pub mod Types
pub mod State
pub mod Stop
pub mod DoStop
pub mod Start
pub mod Transition
pub mod Propagation
pub mod Commands
pub mod Classes
pub mod Refs
pub mod Fuel
pub mod Moves
pub mod Process
pub mod Limit
pub mod Active
pub mod Detach
pub mod Links
pub mod Events
mod Tests
