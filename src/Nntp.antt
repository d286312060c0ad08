-- ===== src/Nntp.antt =====
-- The NNTP poster, lib/nntp.c.
pub mod Response
pub mod Wire
pub mod Session
pub mod Queue
mod Tests
