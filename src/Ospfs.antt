-- ===== src/Ospfs.antt =====
-- lab3/ospfsmod.c and lab3/ospfs.h: the OSPFS file system module.
pub mod Disk
pub mod Bitvector
pub mod Alloc
pub mod Index
pub mod Resize
pub mod Read
pub mod Store
pub mod Write
pub mod Dir
mod Tests
