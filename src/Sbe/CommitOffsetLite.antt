-- ===== src/Sbe/CommitOffsetLite.antt =====
-- The flyweight sbe::CommitOffsetLite of include/model/CommitOffsetLite.h. The generated classes have
-- the same members and the same code for positions and variable fields as TopicMessage.
use aeron_cluster_client_cpp.Prelude.{ℕ, ◌+◌, Bytes, write_at, le}
use aeron_cluster_client_cpp.Sbe.Exception.{Result, ◌>>=◌}
use aeron_cluster_client_cpp.Sbe.Read.{Read, read_word}
use aeron_cluster_client_cpp.Sbe.TopicMessage.Getters.{get_string}
use aeron_cluster_client_cpp.Sbe.TopicMessage.{
  TopicMessage, header_length, header_wrap, header_bytes, wrap_for_decode, put_field, field_length,
}

abbrev pub CommitOffsetLite : Type 0
CommitOffsetLite = TopicMessage

abbrev pub lite_block_length : ℕ
lite_block_length = 12

abbrev pub lite_template_id : ℕ
lite_template_id = 301

unfoldable pub lite_wrap_and_apply_header : Bytes → ℕ → ℕ → Result CommitOffsetLite
unfolding wrap_for_decode header_wrap
lite_wrap_and_apply_header buffer offset buffer_length = do
  done ← header_wrap offset buffer_length
  let header = header_bytes lite_block_length lite_template_id 1 1
  wrap_for_decode (write_at buffer offset header) (offset + header_length) lite_block_length 1
      buffer_length

unfoldable pub topic_id : CommitOffsetLite → Read ℕ
topic_id f = read_word 4 f.buffer f.offset

unfoldable pub set_topic_id : ℕ → CommitOffsetLite → CommitOffsetLite
set_topic_id value f = record f { buffer = write_at f.buffer f.offset (le 4 value) }

unfoldable pub sequence : CommitOffsetLite → Read ℕ
sequence f = read_word 8 f.buffer (f.offset + 4)

unfoldable pub set_sequence : ℕ → CommitOffsetLite → CommitOffsetLite
set_sequence value f = record f { buffer = write_at f.buffer (f.offset + 4) (le 8 value) }

abbrev pub put_message_id : Bytes → CommitOffsetLite → Result CommitOffsetLite
put_message_id = put_field

abbrev pub put_message_identifier : Bytes → CommitOffsetLite → Result CommitOffsetLite
put_message_identifier = put_field

abbrev pub get_message_id_as_string : CommitOffsetLite → Read (Bytes × CommitOffsetLite)
get_message_id_as_string = get_string

abbrev pub get_message_identifier_as_string : CommitOffsetLite → Read (Bytes × CommitOffsetLite)
get_message_identifier_as_string = get_string

unfoldable pub lite_compute_length : ℕ → ℕ → Result ℕ
lite_compute_length message_id message_identifier = do
  a ← field_length lite_block_length message_id
  field_length a message_identifier
