-- ===== src/Api.antt =====
-- internal/api and internal/pkg/app: the requests and how their caller is known.
pub mod Request
pub mod Auth
pub mod Response
pub mod User
pub mod Tweet
pub mod Follow
pub mod Router
