-- ===== src/Schedos.antt =====
-- weensyos2: SchedOS, a kernel with five scheduling algorithms.
pub mod Process
pub mod Kernel
pub mod Invariant
pub mod Calls
pub mod Choice
pub mod Fair
pub mod Algorithms
pub mod Boot
mod Tests
pub mod Urgent
