-- ===== src/Sbe/TopicMessage/Getters.antt =====
-- The getters of include/model/TopicMessage.h that the message parser calls.
use aeron_cluster_client_cpp.Prelude.{ℕ, ◌+◌, Bytes}
use aeron_cluster_client_cpp.Sbe.Read.{Read, got, checked, read_word, read_bytes, ◌>>=◌}
use aeron_cluster_client_cpp.Sbe.TopicMessage.{TopicMessage, set_position}

unfoldable pub timestamp : TopicMessage → Read ℕ
timestamp t = read_word 8 t.buffer t.offset

unfoldable pub sequence_number : TopicMessage → Read ℕ
sequence_number t = read_word 8 t.buffer (t.offset + 8)

-- `get...AsString()`. The string is made before the position behind it is checked.
unfoldable pub get_string : TopicMessage → Read (Bytes × TopicMessage)
unfolding set_position
get_string t = do
  t1 ← checked (set_position t (t.position + 2))
  data_length ← read_word 2 t1.buffer t.position
  result ← read_bytes data_length t1.buffer t1.position
  t2 ← checked (set_position t1 (t1.position + data_length))
  got (result, t2)

abbrev pub get_topic_as_string : TopicMessage → Read (Bytes × TopicMessage)
get_topic_as_string = get_string

abbrev pub get_message_type_as_string : TopicMessage → Read (Bytes × TopicMessage)
get_message_type_as_string = get_string

abbrev pub get_uuid_as_string : TopicMessage → Read (Bytes × TopicMessage)
get_uuid_as_string = get_string

abbrev pub get_payload_as_string : TopicMessage → Read (Bytes × TopicMessage)
get_payload_as_string = get_string

abbrev pub get_headers_as_string : TopicMessage → Read (Bytes × TopicMessage)
get_headers_as_string = get_string
