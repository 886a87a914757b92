-- ===== src/Commit/Wire/Received.antt =====
-- The control messages are read back by the message parser.
use aeron_cluster_client_cpp.Prelude.{ℕ, ◌+◌, ◌≤◌, ◌<◌, ◌^◌, ◌≡◌, Bytes, length, str, arith}
use aeron_cluster_client_cpp.Json.{JsonLib}
use aeron_cluster_client_cpp.Sbe.Exception.{Result, ok}
use aeron_cluster_client_cpp.Encoder.Cut.{topic_message_bytes}
use aeron_cluster_client_cpp.Decoder.{accepted}
use aeron_cluster_client_cpp.Parser.{decode_topic_message_with_sbe}
use aeron_cluster_client_cpp.Parser.Truncation.{received}
use aeron_cluster_client_cpp.Parser.Messages.{decode_topic_message_bytes}
use aeron_cluster_client_cpp.Commit.Wire.{
  topic_subscriptions, control_frame, commit_payload, subscription_payload, unsubscription_payload,
  uuid_of, build_commit_message, build_subscription_message, build_unsubscription_message,
}
use aeron_cluster_client_cpp.Commit.Wire.Lengths.{
  length-uuid_of, length-commit_payload, length-subscription_payload, length-unsubscription_payload,
}
use aeron_cluster_client_cpp.Commit.Wire.Control.{control_frame_lem}

-- A control message is built, and the decoder reads its fields.
abbrev pub IsReceived : JsonLib → ℕ → Bytes → Bytes → Bytes → Result Bytes → Type 0
IsReceived lib now m u p result =
    (frame : Bytes) × (result ≡ ok frame)
    × (decode_topic_message_with_sbe lib frame ≡ accepted (received lib now m u p (str "{}")))

control_frame-IsReceived :
    (lib : JsonLib) (now room : ℕ) (m u p : Bytes)
    → 34 + (length m + length u + length p) ≤ room
    → room ≤ 65000
    → now < 2 ^ 64
    → IsReceived lib now m u p (control_frame room now m u p)
control_frame-IsReceived lib now room m u p enough small time = (
  topic_message_bytes now 0 topic_subscriptions m u p (str "{}"),
  control_frame_lem now room m u p enough (omega arith),
  decode_topic_message_bytes lib now 0 topic_subscriptions m u p (str "{}")
      (omega arith, omega arith, omega arith, omega arith, omega arith) time,
)

-- For a time below 2 ^ 64, and a topic, a client id (counted twice) and a resume strategy of at most 370
-- bytes together, the commit, subscription and unsubscription messages are built without an
-- exception, and the message parser reads each back: the time, the message type, the identifier
-- with its prefix, the payload and the headers `{}`.
pub control_messages-IsReceived :
    (lib : JsonLib) (now later : ℕ) (topic client r : Bytes)
    → length topic + (length client + length client) + length r ≤ 370
    → now < 2 ^ 64
    → IsReceived lib now
        (str "COMMIT")
        (uuid_of (str "commit_") client later)
        (commit_payload topic client)
        (build_commit_message now later topic client)
      × IsReceived lib now
          (str "SUBSCRIPTION")
          (uuid_of (str "sub_") client later)
          (subscription_payload topic client r)
          (build_subscription_message now later topic client r)
      × IsReceived lib now
          (str "UNSUBSCRIBE")
          (uuid_of (str "unsub_") client later)
          (unsubscription_payload topic client)
          (build_unsubscription_message now later topic client)
unfolding build_commit_message build_subscription_message build_unsubscription_message
control_messages-IsReceived lib now later topic client r fits time = (
  control_frame-IsReceived lib now 512 _ _ _
      (omega
        (arith, length-uuid_of (str "commit_") client later, length-commit_payload topic client))
      (omega arith) time,
  control_frame-IsReceived lib now 512 _ _ _
      (omega (
        arith,
        length-uuid_of (str "sub_") client later,
        length-subscription_payload topic client r,
      ))
      (omega arith) time,
  control_frame-IsReceived lib now 512 _ _ _
      (omega (
        arith,
        length-uuid_of (str "unsub_") client later,
        length-unsubscription_payload topic client,
      ))
      (omega arith) time,
)
