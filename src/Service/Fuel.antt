-- ===== src/Service/Fuel.antt =====
-- The fuel of `do_stop` in cdinit/dinit/src/service.cc: a recursive call clears the mark of an
-- explicitly started service, so their number bounds the depth.
pub mod Defs
pub mod Dependents
pub mod Enough
