-- ===== src/Tests.antt =====
-- Runs of the development's theorems on concrete messages, sessions, commits and clients.
pub mod Messages
pub mod Sessions
pub mod Commits
pub mod Clients
pub mod Flows
pub mod Orders
pub mod Settings
pub mod Publishing
pub mod Polling
