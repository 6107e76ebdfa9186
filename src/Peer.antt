-- ===== src/Peer.antt =====
-- lab4/osppeer.c: the bounded buffer of a task.
pub mod Buffer
pub mod Queue
mod Tests
