-- ===== src/Commit/Wire.antt =====
-- The messages that the commit manager (src/commit_manager.cpp) and the subscription helpers
-- (include/aeron_cluster/subscription.hpp) build. `now` and `later` are two readings of now_nanos.
pub mod Control
pub mod Lengths
pub mod Received
pub mod Offsets
pub mod OffsetFields
use aeron_cluster_client_cpp.Prelude.{
  ℕ, ◌+◌, ◌-◌, ◌%◌, Bytes, List, [], ◌∷◌, ◌++◌, Bool, length, take, replicate, write_at, str,
  is_empty, ◌==◌, if◌then◌else◌, Option, none, some,
}
use aeron_cluster_client_cpp.Sbe.Exception.{Result, ok, ◌>>=◌}
use aeron_cluster_client_cpp.Sbe.TopicMessage.{
  TopicMessage, header_length, header_wrap, header_bytes, wrap_for_encode, set_timestamp,
  set_sequence_number, put_field, encoded_length, sbe_block_length, sbe_template_id, sbe_schema_id,
  sbe_schema_version,
}
use aeron_cluster_client_cpp.Sbe.CommitOffsetLite.{
  CommitOffsetLite, lite_wrap_and_apply_header, set_topic_id, set_sequence, put_message_id,
  put_message_identifier, lite_compute_length,
}
use aeron_cluster_client_cpp.Text.{to_string}
use aeron_cluster_client_cpp.Json.{JsonLib, Scalar, text, number}
use aeron_cluster_client_cpp.Commit.{CommitOffset, topic_to_id}

-- `put...(src, static_cast<std::uint16_t>(size))`
abbrev pub put_chars : Bytes → TopicMessage → Result TopicMessage
put_chars s t = put_field (take (length s % 65536) s) t

abbrev pub topic_subscriptions : Bytes
topic_subscriptions = str "_subscriptions"

-- The common part, with publish_topic of the client: a vector of 24 + `room` bytes, the header, and the
-- fields. The flyweight is told eight bytes less than the vector has.
unfoldable pub topic_frame : ℕ → ℕ → Bytes → Bytes → Bytes → Bytes → Bytes → Result Bytes
unfolding header_wrap wrap_for_encode set_timestamp set_sequence_number encoded_length
topic_frame room now topic message_type uuid payload headers = do
  let size = 24 + room
  done ← header_wrap 0 size
  let header = header_bytes sbe_block_length sbe_template_id sbe_schema_id sbe_schema_version
  t0 ← wrap_for_encode (write_at (replicate size 0) 0 header) 8 (size - 8)
  t1 ← put_chars topic (set_sequence_number 0 (set_timestamp now t0))
  t2 ← put_chars message_type t1
  t3 ← put_chars uuid t2
  t4 ← put_chars payload t3
  t5 ← put_chars headers t4
  ok (take (8 + encoded_length t5) t5.buffer)

unfoldable pub control_frame : ℕ → ℕ → Bytes → Bytes → Bytes → Result Bytes
unfolding topic_frame
control_frame room now message_type uuid payload =
    topic_frame room now topic_subscriptions message_type uuid payload (str "{}")

unfoldable pub commit_payload : Bytes → Bytes → Bytes
commit_payload topic client_id =
    str "{\"topic\":\""
    ++ (topic ++ (str "\",\"action\":\"COMMIT\",\"client_id\":\"" ++ (client_id ++ str "\"}")))

abbrev pub uuid_of : Bytes → Bytes → ℕ → Bytes
uuid_of prefix client_id later = prefix ++ (client_id ++ (str "_" ++ to_string later))

unfoldable pub build_commit_message : ℕ → ℕ → Bytes → Bytes → Result Bytes
unfolding control_frame commit_payload
build_commit_message now later topic client_id =
    control_frame 512 now (str "COMMIT") (uuid_of (str "commit_") client_id later)
      (commit_payload topic client_id)

unfoldable pub subscription_payload : Bytes → Bytes → Bytes → Bytes
subscription_payload topic client_id resume_strategy =
    str "{\"topic\":\""
    ++ (topic
        ++ (str "\",\"action\":\"SUBSCRIBE\",\"client_id\":\""
            ++ (client_id
                ++ (str "\""
                    ++ ((if is_empty resume_strategy
                          then []
                          else str ",\"resumeStrategy\":\"" ++ (resume_strategy ++ str "\""))
                        ++ str "}")))))

unfoldable pub build_subscription_message : ℕ → ℕ → Bytes → Bytes → Bytes → Result Bytes
unfolding control_frame subscription_payload
build_subscription_message now later target_topic client_id resume_strategy =
    control_frame 512 now (str "SUBSCRIPTION") (uuid_of (str "sub_") client_id later)
      (subscription_payload target_topic client_id resume_strategy)

unfoldable pub unsubscription_payload : Bytes → Bytes → Bytes
unsubscription_payload topic client_id =
    str "{\"topic\":\""
    ++ (topic ++ (str "\",\"action\":\"UNSUBSCRIBE\",\"client_id\":\"" ++ (client_id ++ str "\"}")))

unfoldable pub build_unsubscription_message : ℕ → ℕ → Bytes → Bytes → Result Bytes
unfolding control_frame unsubscription_payload
build_unsubscription_message now later target_topic client_id =
    control_frame 512 now (str "UNSUBSCRIBE") (uuid_of (str "unsub_") client_id later)
      (unsubscription_payload target_topic client_id)

-- The CommitOffsetLite message.
unfoldable pub lite_frame : ℕ → CommitOffset → Result Bytes
unfolding lite_compute_length lite_wrap_and_apply_header set_topic_id set_sequence encoded_length
lite_frame id offset = do
  body_length ← lite_compute_length (length offset.message_id) (length offset.message_identifier)
  let total = header_length + body_length
  f0 ← lite_wrap_and_apply_header (replicate total 0) 0 total
  f1 ← put_message_id offset.message_id (set_sequence offset.sequence_number (set_topic_id id f0))
  f2 ← put_message_identifier offset.message_identifier f1
  ok (take (header_length + encoded_length f2) f2.buffer)

-- The members of the JSON text, in the order of the source.
abbrev pub commit_members : CommitOffset → List (Bytes × Scalar)
commit_members offset =
    (str "action", text (str "COMMIT_OFFSET"))
    ∷ (str "topic", text offset.topic)
    ∷ (str "message_id", text offset.message_id)
    ∷ (str "timestamp_nanos", number offset.timestamp_nanos)
    ∷ (str "sequence_number", number offset.sequence_number)
    ∷ (str "messageIdentifier", text offset.message_identifier)
    ∷ []

-- `write_string` is Json::writeString. Of the two topics the code reads the one of the offset.
module _ (write_string : List (Bytes × Scalar) → Bytes) where
  unfoldable pub build_commit_offset_message : ℕ → ℕ → Bytes → CommitOffset → Result Bytes
  unfolding topic_to_id lite_frame control_frame
  build_commit_offset_message now later client_id offset =
      let id = topic_to_id offset.topic in
      let legacy =
        control_frame 1024 now (str "COMMIT_OFFSET")
          (uuid_of (str "commit_offset_") client_id later) (write_string (commit_members offset)) in
      if id == 0 then legacy else lite_frame id offset

  unfoldable pub serialize_commit_offset : CommitOffset → Bytes
  serialize_commit_offset offset = write_string (
      (str "action", text (str "COMMIT_OFFSET"))
      ∷ (str "topic", text offset.topic)
      ∷ (str "messageIdentifier", text offset.message_identifier)
      ∷ (str "message_id", text offset.message_id)
      ∷ (str "timestamp_nanos", number offset.timestamp_nanos)
      ∷ (str "sequence_number", number offset.sequence_number)
      ∷ [])

-- The offset of five members; `none` is an exception.
abbrev offset_of_members :
    Option Bytes → Option Bytes → Option Bytes → Option ℕ → Option ℕ → Option CommitOffset
offset_of_members (some topic) (some identifier) (some id) (some time) (some sequence) =
    some (record {
      topic = topic;
      message_identifier = identifier;
      message_id = id;
      timestamp_nanos = time;
      sequence_number = sequence;
    })
offset_of_members _ _ _ _ _ = none

-- `asUInt64` of any value is a parameter, since it throws where `JsonLib.as_uint64` is not used.
module _ (lib : JsonLib) (as_any_uint64 : lib.Value → Option ℕ) where
  -- `root.get(key, other)`, converted.
  abbrev get_or : {A : Type 0} → (lib.Value → Option A) → A → lib.Value → Bytes → Option A
  get_or convert other root key = elim (lib.is_member root key) [
    | none ↦ none
    | some present ↦
        if present
        then elim (lib.member root key) [ none ↦ none | some v ↦ convert v ]
        else some other
  ]

  unfoldable pub parse_commit_offset : Bytes → Option CommitOffset
  parse_commit_offset payload = elim (lib.parse_from_stream payload) [
    | none ↦ none
    | some root ↦
        offset_of_members (get_or lib.to_text [] root (str "topic"))
          (get_or lib.to_text [] root (str "message_identifier"))
          (get_or lib.to_text [] root (str "message_id"))
          (get_or as_any_uint64 0 root (str "timestamp_nanos"))
          (get_or as_any_uint64 0 root (str "sequence_number"))
  ]
