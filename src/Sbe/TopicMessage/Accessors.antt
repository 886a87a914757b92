-- ===== src/Sbe/TopicMessage/Accessors.antt =====
-- The accessors of the five variable fields of include/model/TopicMessage.h, in the order of the
-- schema; the source has the same bodies for each field.
use aeron_cluster_client_cpp.Prelude.{ℕ, Bytes}
use aeron_cluster_client_cpp.Sbe.Exception.{Result}
use aeron_cluster_client_cpp.Sbe.Read.{Read}
use aeron_cluster_client_cpp.Sbe.TopicMessage.{TopicMessage, put_field}
use aeron_cluster_client_cpp.Sbe.TopicMessage.Skipping.{
  data_length, field_pointer, copy_field, field_view,
}

abbrev pub topic_length : TopicMessage → Read ℕ
topic_length = data_length

abbrev pub topic_pointer : TopicMessage → Read (ℕ × TopicMessage)
topic_pointer = field_pointer

abbrev pub get_topic : ℕ → TopicMessage → Read (Bytes × ℕ × TopicMessage)
get_topic = copy_field

abbrev pub get_topic_as_string_view : TopicMessage → Read ((ℕ × ℕ) × TopicMessage)
get_topic_as_string_view = field_view

abbrev pub put_topic_bytes : Bytes → TopicMessage → Result TopicMessage
put_topic_bytes = put_field

abbrev pub message_type_length : TopicMessage → Read ℕ
message_type_length = data_length

abbrev pub message_type_pointer : TopicMessage → Read (ℕ × TopicMessage)
message_type_pointer = field_pointer

abbrev pub get_message_type : ℕ → TopicMessage → Read (Bytes × ℕ × TopicMessage)
get_message_type = copy_field

abbrev pub get_message_type_as_string_view : TopicMessage → Read ((ℕ × ℕ) × TopicMessage)
get_message_type_as_string_view = field_view

abbrev pub put_message_type_bytes : Bytes → TopicMessage → Result TopicMessage
put_message_type_bytes = put_field

abbrev pub uuid_length : TopicMessage → Read ℕ
uuid_length = data_length

abbrev pub uuid_pointer : TopicMessage → Read (ℕ × TopicMessage)
uuid_pointer = field_pointer

abbrev pub get_uuid : ℕ → TopicMessage → Read (Bytes × ℕ × TopicMessage)
get_uuid = copy_field

abbrev pub get_uuid_as_string_view : TopicMessage → Read ((ℕ × ℕ) × TopicMessage)
get_uuid_as_string_view = field_view

abbrev pub put_uuid_bytes : Bytes → TopicMessage → Result TopicMessage
put_uuid_bytes = put_field

abbrev pub payload_length : TopicMessage → Read ℕ
payload_length = data_length

abbrev pub payload_pointer : TopicMessage → Read (ℕ × TopicMessage)
payload_pointer = field_pointer

abbrev pub get_payload : ℕ → TopicMessage → Read (Bytes × ℕ × TopicMessage)
get_payload = copy_field

abbrev pub get_payload_as_string_view : TopicMessage → Read ((ℕ × ℕ) × TopicMessage)
get_payload_as_string_view = field_view

abbrev pub put_payload_bytes : Bytes → TopicMessage → Result TopicMessage
put_payload_bytes = put_field

abbrev pub headers_length : TopicMessage → Read ℕ
headers_length = data_length

abbrev pub headers_pointer : TopicMessage → Read (ℕ × TopicMessage)
headers_pointer = field_pointer

abbrev pub get_headers : ℕ → TopicMessage → Read (Bytes × ℕ × TopicMessage)
get_headers = copy_field

abbrev pub get_headers_as_string_view : TopicMessage → Read ((ℕ × ℕ) × TopicMessage)
get_headers_as_string_view = field_view

abbrev pub put_headers_bytes : Bytes → TopicMessage → Result TopicMessage
put_headers_bytes = put_field
