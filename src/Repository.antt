-- ===== src/Repository.antt =====
-- internal/repository: the stores and the caches behind one interface each (cache-aside).
pub mod Batch
pub mod Tweet
pub mod Follow
pub mod User
pub mod Session
pub mod TimeLine
