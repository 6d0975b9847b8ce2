-- ===== src/Loading.antt =====
-- The loading of services with their dependencies, cdinit/dinit/src/load-service.cc.
pub mod Cycle
mod Tests
