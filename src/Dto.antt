-- ===== src/Dto.antt =====
-- internal/dto: the records that the services hand round, and their conversions. A pointer is an
-- `Option`, whose `none` is nil.
pub mod Session
pub mod Tweet
pub mod User
pub mod Follow
pub mod TimeLine
