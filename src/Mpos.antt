-- ===== src/Mpos.antt =====
-- weensyos1: MiniprocOS, a kernel with cooperative processes that fork, exit, kill and wait.
pub mod Process
pub mod Kernel
pub mod Schedule
pub mod Invariant
pub mod Calls
pub mod Frame
pub mod Fork
pub mod Wait
pub mod Boot
mod Tests
