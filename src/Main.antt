-- ===== src/Main.antt =====
-- cmd/api/main.go: how the parts are put together, and how the process starts and stops.
pub mod App
pub mod Process
pub mod Login
pub mod SignIn
pub mod Calm
