-- ===== src/Session.antt =====
-- SessionManager::Impl of src/session_manager.cpp.
pub mod State
pub mod Offer
pub mod Send
pub mod Publish
pub mod Events
pub mod Close
pub mod Endpoint
pub mod Connect
pub mod Sync
pub mod Steps
pub mod Reach
pub mod History
pub mod Sent
pub mod Ending
pub mod Stuck
pub mod Loss
pub mod Retry
