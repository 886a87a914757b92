-- ===== src/Parser/Outcome.antt =====
-- ParseResult of include/aeron_cluster/sbe_messages.hpp.
use aeron_cluster_client_cpp.Prelude.{
  ℕ, Bytes, [], Bool, false, ◌&&◌, ◌||◌, not, ◌==◌, str, is_empty,
}
use aeron_cluster_client_cpp.Prelude.Int.{ℤ, pos}
use aeron_cluster_client_cpp.Sbe.Header.{
  MessageHeader, cluster_schema_id, topic_schema_id, session_event_template_id,
  topic_message_template_id, acknowledgment_template_id,
}
use aeron_cluster_client_cpp.Sbe.Exception.{Exception}
use aeron_cluster_client_cpp.Text.{contains}

pub data ErrorMessage : Type 0 where
  no_error null_or_empty header_failed session_event_failed acknowledgment_failed : ErrorMessage
  session_message_too_short embedded_too_short embedded_header_failed insufficient_data :
      ErrorMessage
  buffer_too_short_for_header : ErrorMessage
  unknown_message_type unknown_format not_acknowledgment not_topic_message : ℕ → ℕ → ErrorMessage
  unknown_embedded_template unknown_embedded_schema unknown_direct_template : ℕ → ErrorMessage
  acknowledgment_too_short : ℕ → ErrorMessage
  topic_decoding_failed : Exception → ErrorMessage

pub record ParseResult : Type 0 where
  pub success : Bool
  pub error_message : ErrorMessage
  pub message_type : Bytes
  pub message_id : Bytes
  pub payload : Bytes
  pub headers : Bytes
  pub timestamp : ℤ
  pub sequence_number : ℕ
  pub template_id : ℕ
  pub schema_id : ℕ
  pub version : ℕ
  pub block_length : ℕ
  pub correlation_id : ℤ
  pub session_id : ℤ
  pub leader_member_id : ℤ
  pub event_code : ℤ
  pub leadership_term_id : ℤ

-- `ParseResult result;`
abbrev pub empty_result : ParseResult
empty_result = record {
  success = false;
  error_message = no_error;
  message_type = [];
  message_id = [];
  payload = [];
  headers = [];
  timestamp = pos 0;
  sequence_number = 0;
  template_id = 0;
  schema_id = 0;
  version = 0;
  block_length = 0;
  correlation_id = pos 0;
  session_id = pos 0;
  leader_member_id = pos 0;
  event_code = pos 0;
  leadership_term_id = pos 0;
}

abbrev pub failed : ErrorMessage → ParseResult
failed e = record empty_result { error_message = e }

abbrev pub with_header : MessageHeader → ParseResult → ParseResult
with_header h r = record r {
  template_id = h.template_id;
  schema_id = h.schema_id;
  version = h.version;
  block_length = h.block_length;
}

abbrev pub is_session_event : ParseResult → Bool
is_session_event r = r.template_id == session_event_template_id && r.schema_id == cluster_schema_id

unfoldable pub is_topic_message : ParseResult → Bool
is_topic_message r =
    (r.template_id == topic_message_template_id
      && (r.schema_id == topic_schema_id || r.schema_id == 1))
    || (r.schema_id == cluster_schema_id && r.template_id == topic_message_template_id)
    || (r.schema_id == topic_schema_id && r.template_id == session_event_template_id)
    || (not (is_empty r.message_type)
        && (contains r.message_type (str "ORDER")
            || contains r.message_type (str "TopicMessage")
            || contains r.message_type (str "CREATE_ORDER")
            || contains r.message_type (str "UPDATE_ORDER")))

abbrev pub is_acknowledgment : ParseResult → Bool
is_acknowledgment r = r.template_id == acknowledgment_template_id && r.schema_id == topic_schema_id
