-- ===== src/Pkg.antt =====
-- internal/pkg: what the layers share.
pub mod Singleflight
pub mod Pool
pub mod MessageQueue
pub mod Crypto
pub mod Redis
pub mod Json
pub mod Utils
pub mod Calm
