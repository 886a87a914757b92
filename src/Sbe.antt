-- ===== src/Sbe.antt =====
-- The wire format: the packed header of include/aeron_cluster/sbe_messages.hpp and the generated
-- flyweights of include/model/.
pub mod Exception
pub mod Read
pub mod Header
pub mod TopicMessage
pub mod CommitOffsetLite
