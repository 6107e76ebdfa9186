-- ===== src/Osprd.antt =====
-- lab2: the RAM disk driver, its locks and its requests.
pub mod Device
pub mod Readers
pub mod Deadlock
pub mod Request
mod Tests
