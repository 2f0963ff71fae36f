-- ===== src/Db.antt =====
-- internal/db: the stores over Postgres. The driver (database/sql, sqlx, lib/pq) and the server
-- are parameters: a record of the statements that a store sends, each with the rows or the error
-- that comes back.
pub mod Driver
pub mod Transactor
pub mod Tweet
pub mod User
pub mod Follow
pub mod Session
pub mod Calm
