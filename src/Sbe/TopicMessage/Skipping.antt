-- ===== src/Sbe/TopicMessage/Skipping.antt =====
-- The other ways to read a variable field of include/model/TopicMessage.h: its length, the pointer
-- to its bytes, a copy of at most so many bytes, a view, and stepping over it; `skip` and
-- `decodeLength`, which step over all five. A pointer into the buffer is the index it points to.
use aeron_cluster_client_cpp.Prelude.{ℕ, ◌+◌, Bytes, ltb, if◌then◌else◌}
use aeron_cluster_client_cpp.Sbe.Exception.{Result}
use aeron_cluster_client_cpp.Sbe.Read.{Read, got, checked, read_word, read_bytes, ◌>>=◌}
use aeron_cluster_client_cpp.Sbe.TopicMessage.{
  TopicMessage, set_position, wrap_for_decode, encoded_length,
}

-- `topicLength()` and its like, before the field is read. The position is not checked.
unfoldable pub data_length : TopicMessage → Read ℕ
data_length t = read_word 2 t.buffer t.position

-- The length is read before the position is checked, here and in `topic()`.
unfoldable pub skip_field : TopicMessage → Read (ℕ × TopicMessage)
unfolding data_length set_position
skip_field t = do n ← data_length t; t1 ← checked (set_position t (t.position + 2 + n)); got (n, t1)

-- `const char *topic()` and its like.
unfoldable pub field_pointer : TopicMessage → Read (ℕ × TopicMessage)
unfolding data_length set_position
field_pointer t = do
  n ← data_length t
  t1 ← checked (set_position t (t.position + 2 + n))
  got (t.position + 2, t1)

-- `getTopic(char *dst, length)` and its like: the bytes copied to `dst`, and how many there are.
unfoldable pub copy_field : ℕ → TopicMessage → Read (Bytes × ℕ × TopicMessage)
unfolding data_length set_position
copy_field size t = do
  t1 ← checked (set_position t (t.position + 2))
  n ← data_length t
  let bytes_to_copy = if ltb size n then size else n
  t2 ← checked (set_position t1 (t1.position + n))
  copied ← read_bytes bytes_to_copy t2.buffer t1.position
  got (copied, bytes_to_copy, t2)

-- `getTopicAsStringView()` and its like: the index and the length of the view.
unfoldable pub field_view : TopicMessage → Read ((ℕ × ℕ) × TopicMessage)
unfolding data_length set_position
field_view t = do
  t1 ← checked (set_position t (t.position + 2))
  n ← data_length t
  t2 ← checked (set_position t1 (t1.position + n))
  got ((t1.position, n), t2)

abbrev pub skip_topic : TopicMessage → Read (ℕ × TopicMessage)
skip_topic = skip_field

abbrev pub skip_message_type : TopicMessage → Read (ℕ × TopicMessage)
skip_message_type = skip_field

abbrev pub skip_uuid : TopicMessage → Read (ℕ × TopicMessage)
skip_uuid = skip_field

abbrev pub skip_payload : TopicMessage → Read (ℕ × TopicMessage)
skip_payload = skip_field

abbrev pub skip_headers : TopicMessage → Read (ℕ × TopicMessage)
skip_headers = skip_field

unfoldable pub skip : TopicMessage → Read TopicMessage
unfolding skip_field
skip t0 = do
  r1 ← skip_topic t0
  r2 ← skip_message_type r1.1
  r3 ← skip_uuid r2.1
  r4 ← skip_payload r3.1
  r5 ← skip_headers r4.1
  got r5.1

unfoldable pub sbe_rewind : TopicMessage → Result TopicMessage
unfolding wrap_for_decode
sbe_rewind t =
    wrap_for_decode t.buffer t.offset t.acting_block_length t.acting_version t.buffer_length

-- The skipper's constructor does what `wrapForDecode` does.
unfoldable pub decode_length : TopicMessage → Read ℕ
unfolding sbe_rewind skip encoded_length
decode_length t = do s ← checked (sbe_rewind t); s1 ← skip s; got (encoded_length s1)
