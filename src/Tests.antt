-- ===== src/Tests.antt =====
-- The theorems at concrete inputs: small stores, drivers and conversions that meet what the
-- theorems ask for.
mod Sessions
mod SignIns
mod Answered
mod Tweets
mod Users
mod Reads
mod Messages
mod Unhandled
mod Requests
mod Relations
mod Stores
mod Pages
mod Caches
mod Drains
mod Calls
mod Settings
mod Wirings
mod Entries
mod Memory
mod Cached
mod CachedUsers
