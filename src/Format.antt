-- ===== src/Format.antt =====
-- lab3/ospfsformat.c: the program that writes a file system into an image.
pub mod Blocks
pub mod Cache
pub mod Image
pub mod Inodes
pub mod Files
pub mod Fuel
pub mod Program
pub mod Root
pub mod Sound
pub mod Empty
pub mod Mounted
mod Tests
