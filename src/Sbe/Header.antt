-- ===== src/Sbe/Header.antt =====
-- The packed structures and the constants of include/aeron_cluster/sbe_messages.hpp and
-- include/aeron_cluster/config.hpp (SBEConstants). The host is little-endian.
use aeron_cluster_client_cpp.Prelude.{ℕ, Bytes, ◌++◌, le, read_le}

pub record MessageHeader : Type 0 where
  pub block_length : ℕ
  pub template_id : ℕ
  pub schema_id : ℕ
  pub version : ℕ

abbrev pub sizeof_message_header : ℕ
sizeof_message_header = 8

-- `memcpy` of the structure into memory and out of it.
abbrev pub header_to_bytes : MessageHeader → Bytes
header_to_bytes h =
    le 2 h.block_length ++ (le 2 h.template_id ++ (le 2 h.schema_id ++ le 2 h.version))

unfoldable pub read_header : Bytes → MessageHeader
read_header memory = record {
  block_length = read_le 2 0 memory;
  template_id = read_le 2 2 memory;
  schema_id = read_le 2 4 memory;
  version = read_le 2 6 memory;
}

abbrev pub cluster_schema_id : ℕ
cluster_schema_id = 111

abbrev pub cluster_schema_version : ℕ
cluster_schema_version = 8

abbrev pub topic_schema_id : ℕ
topic_schema_id = 1

abbrev pub session_connect_template_id : ℕ
session_connect_template_id = 3

abbrev pub session_event_template_id : ℕ
session_event_template_id = 2

abbrev pub session_close_template_id : ℕ
session_close_template_id = 4

abbrev pub session_keepalive_template_id : ℕ
session_keepalive_template_id = 5

abbrev pub topic_message_template_id : ℕ
topic_message_template_id = 1

abbrev pub acknowledgment_template_id : ℕ
acknowledgment_template_id = 2
