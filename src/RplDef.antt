-- ===== src/RplDef.antt =====
-- src/data_info/rpl_def.c and rpl_def.h: the contents of RPL messages, what is kept of them, and
-- the comparisons by which a change is noticed.
pub mod Compare
pub mod Delta
pub mod Errors
pub mod Init
pub mod Statistics
mod Tests
pub mod Types
pub mod Update
