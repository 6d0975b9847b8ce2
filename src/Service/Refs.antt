-- ===== src/Service/Refs.antt =====
-- The accounting of references behind `required_by` of cdinit/dinit/src/includes/service.h ("number of
-- dependents wanting this service to be started").
pub mod Defs
pub mod Writes
pub mod Stopping
pub mod DoStop
pub mod Starting
pub mod Ending
pub mod Covering
pub mod Requiring
pub mod Propagation
pub mod Commands
pub mod Classes
pub mod Process
