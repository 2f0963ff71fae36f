-- ===== src/Cache.antt =====
-- internal/cache
pub mod TimeLine
pub mod Tweet
pub mod User
pub mod Follow
pub mod Batch
pub mod Calm
