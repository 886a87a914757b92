-- ===== src/Tests/Commits.antt =====
-- The theorems on the commit manager at concrete commits and messages.
use aeron_cluster_client_cpp.Prelude.{
  ◌≡◌, ◌≢◌, refl, Bytes, List, [], ◌∷◌, ◌&&◌, none, some, str, bytes_eq, length, leb, if◌then◌else◌,
  arith,
}
use aeron_cluster_client_cpp.Json.{Scalar}
use aeron_cluster_client_cpp.Sbe.Exception.{too_long}
use aeron_cluster_client_cpp.Sbe.Read.{got, threw, checked, ◌>>=◌}
use aeron_cluster_client_cpp.Commit.{
  CommitOffset, topic_to_id, get_last_commit, clear_commits, commit_message,
}
use aeron_cluster_client_cpp.Commit.Refinement.{
  commit, clear, run, replay, get_last_commit-clear_commits, run_refines,
}
use aeron_cluster_client_cpp.Commit.Wire.{
  uuid_of, commit_payload, subscription_payload, unsubscription_payload, build_commit_message,
  build_subscription_message, build_unsubscription_message, build_commit_offset_message,
}
use aeron_cluster_client_cpp.Commit.Wire.Received.{IsReceived, control_messages-IsReceived}
use aeron_cluster_client_cpp.Commit.Wire.OffsetFields.{
  read_lite, build_commit_offset_message-read_lite,
}
use aeron_cluster_client_cpp.Tests.Messages.{counting_lib}

abbrev pub first_order : CommitOffset
first_order = record {
  topic = str "orders";
  message_identifier = str "me";
  message_id = str "m1";
  timestamp_nanos = 5;
  sequence_number = 1;
}

abbrev second_order : CommitOffset
second_order = record first_order { message_id = str "m2"; sequence_number = 2 }

run_refines_example :
    get_last_commit
      (str "orders")
      (str "me")
      (run (commit first_order ∷ commit second_order ∷ clear (str "orders") ∷ []) [])
    ≡ replay
        (commit first_order ∷ commit second_order ∷ clear (str "orders") ∷ [])
        (λ t i. none)
        (str "orders")
        (str "me")
run_refines_example =
    run_refines (commit first_order ∷ commit second_order ∷ clear (str "orders") ∷ [])
      (str "orders") (str "me") (omega arith) (omega arith)

still_committed :
    replay
      (commit first_order ∷ commit second_order ∷ clear (str "orders") ∷ [])
      (λ t i. none)
      (str "orders")
      (str "me")
    ≡ some second_order
unfolding replay bytes_eq
still_committed = refl

get_last_commit-clear_commits_example :
    get_last_commit
      (str "orders")
      (str "me")
      (clear_commits (str "orders") (commit_message first_order []))
    ≡ get_last_commit (str "orders") (str "me") (commit_message first_order [])
get_last_commit-clear_commits_example =
    get_last_commit-clear_commits (str "orders") (str "orders") (str "me")
      (commit_message first_order []) (omega arith)

control_messages-IsReceived_example :
    IsReceived counting_lib 1000
      (str "COMMIT")
      (uuid_of (str "commit_") (str "me") 1001)
      (commit_payload (str "orders") (str "me"))
      (build_commit_message 1000 1001 (str "orders") (str "me"))
    × IsReceived counting_lib 1000
        (str "SUBSCRIPTION")
        (uuid_of (str "sub_") (str "me") 1001)
        (subscription_payload (str "orders") (str "me") (str "LATEST"))
        (build_subscription_message 1000 1001 (str "orders") (str "me") (str "LATEST"))
    × IsReceived counting_lib 1000
        (str "UNSUBSCRIBE")
        (uuid_of (str "unsub_") (str "me") 1001)
        (unsubscription_payload (str "orders") (str "me"))
        (build_unsubscription_message 1000 1001 (str "orders") (str "me"))
control_messages-IsReceived_example =
    control_messages-IsReceived counting_lib 1000 1001 (str "orders") (str "me") (str "LATEST")
      (omega arith) (omega arith)

-- A writer that writes nothing.
abbrev pub write_nothing : List (Bytes × Scalar) → Bytes
write_nothing members = []

orders_known : topic_to_id (str "orders") ≢ 0
unfolding topic_to_id bytes_eq
orders_known e = absurd (omega arith)

build_commit_offset_message-read_lite_example :
    (checked (build_commit_offset_message write_nothing 1000 1001 (str "me") first_order)
      >>= read_lite)
    ≡ (if leb (length first_order.message_id) 65534
          && leb (length first_order.message_identifier) 65534
        then got (record {
          id = topic_to_id first_order.topic;
          number = first_order.sequence_number;
          message_id = first_order.message_id;
          message_identifier = first_order.message_identifier;
        })
        else threw too_long)
build_commit_offset_message-read_lite_example =
    build_commit_offset_message-read_lite write_nothing 1000 1001 (str "me") first_order
      orders_known (omega arith)
