-- ===== src/Service.antt =====
-- internal/service: the business rules, each service against the interfaces that it declares.
pub mod Session
pub mod Tweet
pub mod User
pub mod Follow
pub mod TimeLine
