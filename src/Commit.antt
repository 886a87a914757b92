-- ===== src/Commit.antt =====
-- CommitManager of src/commit_manager.cpp. Each public method holds the mutex throughout, so it is
-- one step on the map.
pub mod Keys
pub mod Refinement
pub mod Wire
use aeron_cluster_client_cpp.Prelude.{
  ℕ, Bytes, List, [], ◌∷◌, ◌++◌, Bool, Option, none, some, str, bytes_eq, if◌then◌else◌, length,
}
use aeron_cluster_client_cpp.Prelude.Dict.{lookup, insert, erase}

pub record CommitOffset : Type 0 where
  pub topic : Bytes
  pub message_identifier : Bytes
  pub message_id : Bytes
  pub timestamp_nanos : ℕ
  pub sequence_number : ℕ

-- `commits_`
abbrev pub Commits : Type 0
Commits = List (Bytes × CommitOffset)

unfoldable pub topic_to_id : Bytes → ℕ
unfolding bytes_eq
topic_to_id topic =
    if bytes_eq topic (str "order_request_topic")
    then 1
    else if bytes_eq topic (str "order_notification_topic")
    then 2
    else if bytes_eq topic (str "orders")
    then 3
    else if bytes_eq topic (str "order_status_request_topic")
    then 4
    else 0

-- `topic + ":" + message_identifier`
unfoldable pub commit_key : Bytes → Bytes → Bytes
commit_key topic message_identifier = topic ++ (b':' ∷ message_identifier)

unfoldable pub commit_message : CommitOffset → Commits → Commits
unfolding commit_key insert
commit_message offset commits =
    insert (commit_key offset.topic offset.message_identifier) offset commits

unfoldable pub get_last_commit : Bytes → Bytes → Commits → Option CommitOffset
unfolding commit_key lookup
get_last_commit topic message_identifier commits =
    lookup (commit_key topic message_identifier) commits

unfoldable pub clear_commits : Bytes → Commits → Commits
unfolding erase
clear_commits topic commits = erase topic commits

unfoldable pub clear_all_commits : Commits → Commits
clear_all_commits commits = []
