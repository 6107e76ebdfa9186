-- ===== src/Ospfs/Dir.antt =====
-- lab3/ospfsmod.c: directory entries, and the operations on them.
pub mod Entry
pub mod Names
pub mod Lookup
pub mod Found
pub mod Search
pub mod Named
pub mod Put
pub mod Link
mod Tests
