-- ===== src/Sbe/TopicMessage.antt =====
-- The flyweight sbe::TopicMessage of include/model/TopicMessage.h, over the bytes of its buffer.
-- `char *buffer` with its length is the list of the bytes that may be read and written. Positions
-- stay below the buffer's length plus 65537, so the `uint64_t` sums do not wrap.
pub mod Accessors
pub mod Extent
pub mod Fields
pub mod Getters
pub mod Prefix
pub mod Room
pub mod Skipping
use aeron_cluster_client_cpp.Prelude.{
  ℕ, ◌+◌, ◌-◌, ◌%◌, ◌^◌, Bytes, List, [], ◌∷◌, ◌++◌, length, take, drop, write_at, le, read_le, ltb,
  ◌==◌, if◌then◌else◌,
}
use aeron_cluster_client_cpp.Sbe.Exception.{
  Result, ok, throws, buffer_too_short, flyweight_too_short, too_long, ◌>>=◌,
}

pub record TopicMessage : Type 0 where
  pub buffer : Bytes
  pub buffer_length : ℕ
  pub offset : ℕ
  pub position : ℕ
  pub acting_block_length : ℕ
  pub acting_version : ℕ

abbrev pub sbe_block_length : ℕ
sbe_block_length = 16

abbrev pub sbe_template_id : ℕ
sbe_template_id = 1

abbrev pub sbe_schema_id : ℕ
sbe_schema_id = 1

abbrev pub sbe_schema_version : ℕ
sbe_schema_version = 1

-- `MessageHeader::encodedLength()`
abbrev pub header_length : ℕ
header_length = 8

abbrev pub sbe_block_and_header_length : ℕ
sbe_block_and_header_length = header_length + sbe_block_length

-- The check that MessageHeader's constructor and its `wrap` make.
unfoldable pub header_wrap : ℕ → ℕ → Result (Unit {0})
header_wrap offset buffer_length =
    if ltb buffer_length (offset + header_length) then throws flyweight_too_short else ok tt

abbrev pub header_bytes : ℕ → ℕ → ℕ → ℕ → Bytes
header_bytes block_length template_id schema_id version =
    le 2 block_length ++ (le 2 template_id ++ (le 2 schema_id ++ le 2 version))

unfoldable pub sbe_check_position : TopicMessage → ℕ → Result ℕ
sbe_check_position t position =
    if ltb t.buffer_length position then throws buffer_too_short else ok position

unfoldable pub set_position : TopicMessage → ℕ → Result TopicMessage
unfolding sbe_check_position
set_position t position = do p ← sbe_check_position t position; ok (record t { position = p })

unfoldable pub wrap_for_decode : Bytes → ℕ → ℕ → ℕ → ℕ → Result TopicMessage
unfolding set_position
wrap_for_decode buffer offset acting_block_length acting_version buffer_length =
    set_position
      (record {
        buffer = buffer;
        buffer_length = buffer_length;
        offset = offset;
        position = 0;
        acting_block_length = acting_block_length;
        acting_version = acting_version;
      })
      (offset + acting_block_length)

unfoldable pub wrap_for_encode : Bytes → ℕ → ℕ → Result TopicMessage
unfolding wrap_for_decode
wrap_for_encode buffer offset buffer_length =
    wrap_for_decode buffer offset sbe_block_length sbe_schema_version buffer_length

unfoldable pub wrap_and_apply_header : Bytes → ℕ → ℕ → Result TopicMessage
unfolding wrap_for_decode header_wrap
wrap_and_apply_header buffer offset buffer_length = do
  done ← header_wrap offset buffer_length
  let header = header_bytes sbe_block_length sbe_template_id sbe_schema_id sbe_schema_version
  wrap_for_decode (write_at buffer offset header) (offset + header_length) sbe_block_length
      sbe_schema_version buffer_length

unfoldable pub encoded_length : TopicMessage → ℕ
encoded_length t = t.position - t.offset

unfoldable pub set_timestamp : ℕ → TopicMessage → TopicMessage
set_timestamp value t = record t { buffer = write_at t.buffer t.offset (le 8 value) }

unfoldable pub set_sequence_number : ℕ → TopicMessage → TopicMessage
set_sequence_number value t = record t { buffer = write_at t.buffer (t.offset + 8) (le 8 value) }

-- A variable field: `put...(const char *src, uint16_t length)` with the bytes of `src`.
unfoldable pub put_field : Bytes → TopicMessage → Result TopicMessage
unfolding set_position
put_field src t = do
  t1 ← set_position t (t.position + 2)
  let t2 = record t1 { buffer = write_at t1.buffer t.position (le 2 (length src)) }
  let rest = (do
    t3 ← set_position t2 (t2.position + length src)
    ok (record t3 { buffer = write_at t3.buffer t2.position src }))
  if length src == 0 then ok t2 else rest

-- `put...(const std::string &str)`
unfoldable pub put_string : Bytes → TopicMessage → Result TopicMessage
unfolding put_field
put_string s t = if ltb 65534 (length s) then throws too_long else put_field s t

-- The five variable fields, in the order of the schema.
abbrev pub put_topic : Bytes → TopicMessage → Result TopicMessage
put_topic = put_string

abbrev pub put_message_type : Bytes → TopicMessage → Result TopicMessage
put_message_type = put_string

abbrev pub put_uuid : Bytes → TopicMessage → Result TopicMessage
put_uuid = put_string

abbrev pub put_payload : Bytes → TopicMessage → Result TopicMessage
put_payload = put_string

abbrev pub put_headers : Bytes → TopicMessage → Result TopicMessage
put_headers = put_string

-- One summand of `computeLength`.
abbrev pub field_length : ℕ → ℕ → Result ℕ
field_length total n = if ltb 65534 n then throws too_long else ok (total + 2 + n)

unfoldable pub compute_length : ℕ → ℕ → ℕ → ℕ → ℕ → Result ℕ
compute_length topic message_type uuid payload headers = do
  a ← field_length sbe_block_length topic
  b ← field_length a message_type
  c ← field_length b uuid
  d ← field_length c payload
  field_length d headers
