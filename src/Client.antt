-- ===== src/Client.antt =====
-- ClusterClient::Impl of src/cluster_client.cpp, by its parts.
pub mod Reassembler
pub mod Link
pub mod SessionEvents
pub mod State
pub mod Publishing
pub mod Ingress
pub mod Polling
pub mod Topics
pub mod Duplicates
