-- ===== src/Tests.antt =====
-- The development on concrete inputs: runs of the program and examples for the theorems.
pub mod World
pub mod Chat
pub mod Runs
pub mod Parts
pub mod Store
pub mod Wire
pub mod Talks
pub mod Abroad
pub mod Access
pub mod Audience
pub mod Joins
pub mod Clients
pub mod Threads
pub mod Locking
