-- ===== src/Encoder.antt =====
-- The encoders of src/sbe_encoder.cpp. A `std::vector<uint8_t>` is a list of bytes; memory that
-- `resize` adds is zero.
pub mod Layout
pub mod Cut
use aeron_cluster_client_cpp.Prelude.{
  ℕ, zero, suc, ◌+◌, ◌%◌, ◌^◌, Bytes, ◌++◌, length, set, take, replicate, write_at, le, byte_at,
  if◌then◌else◌, Bool, true, false,
}
use aeron_cluster_client_cpp.Prelude.Int.{ℤ, pos, eq_ℤ, to_u64, to_u32}
use aeron_cluster_client_cpp.Sbe.Header.{
  header_to_bytes, sizeof_message_header, cluster_schema_id, cluster_schema_version,
  session_connect_template_id, session_close_template_id, session_keepalive_template_id,
}
use aeron_cluster_client_cpp.Sbe.Exception.{Result, ok, ◌>>=◌}
use aeron_cluster_client_cpp.Sbe.TopicMessage.{
  wrap_and_apply_header, sbe_block_and_header_length, compute_length, set_timestamp,
  set_sequence_number, put_topic, put_message_type, put_uuid, put_payload, put_headers,
  encoded_length,
}

unfoldable pub write_uint_16 : Bytes → ℕ → ℕ → Bytes
write_uint_16 buffer offset value =
    set (set buffer offset (byte_at 0 value)) (offset + 1) (byte_at 1 value)

-- The rounds of `for (int i = 0; i < 8; ++i)` that are left, from round `i` on.
write_int_64_from : ℕ → ℕ → Bytes → ℕ → ℕ → Bytes
write_int_64_from zero i buffer offset value = buffer
write_int_64_from (suc left) i buffer offset value =
    write_int_64_from left (i + 1) (set buffer (offset + i) (byte_at i value)) offset value

unfoldable pub write_int_64 : Bytes → ℕ → ℤ → Bytes
unfolding write_int_64_from
write_int_64 buffer offset value = write_int_64_from 8 0 buffer offset (to_u64 value)

-- The header and the two words that SessionKeepAlive and SessionCloseRequest share.
unfoldable pub encode_session_keep_alive : ℤ → ℤ → Bytes
unfolding write_uint_16 write_int_64
encode_session_keep_alive leadership_term_id cluster_session_id =
    let m0 : Bytes = replicate 24 0 in
    let m1 = write_uint_16 m0 0 16 in
    let m2 = write_uint_16 m1 2 session_keepalive_template_id in
    let m3 = write_uint_16 m2 4 cluster_schema_id in
    let m4 = write_uint_16 m3 6 cluster_schema_version in
    let m5 = write_int_64 m4 8 leadership_term_id in write_int_64 m5 16 cluster_session_id

unfoldable pub encode_session_close_request : ℤ → ℤ → Bytes
unfolding write_uint_16 write_int_64
encode_session_close_request leadership_term_id cluster_session_id =
    let m0 : Bytes = replicate 24 0 in
    let m1 = write_uint_16 m0 0 16 in
    let m2 = write_uint_16 m1 2 session_close_template_id in
    let m3 = write_uint_16 m2 4 cluster_schema_id in
    let m4 = write_uint_16 m3 6 cluster_schema_version in
    let m5 = write_int_64 m4 8 leadership_term_id in write_int_64 m5 16 cluster_session_id

unfoldable pub encode_session_connect_request : ℤ → ℤ → Bytes → ℤ → Bytes
encode_session_connect_request correlation_id response_stream_id response_channel protocol_version =
    let total_size = sizeof_message_header + 16 + 4 + length response_channel in
    let b0 : Bytes = replicate total_size 0 in
    let header = header_to_bytes (record {
      block_length = 16;
      template_id = session_connect_template_id;
      schema_id = cluster_schema_id;
      version = cluster_schema_version;
    }) in
    let b1 = write_at b0 0 header in
    let b2 = write_at b1 8 (le 8 (to_u64 correlation_id)) in
    let b3 = write_at b2 16 (le 4 (to_u32 response_stream_id)) in
    let b4 = write_at b3 20 (le 4 (to_u32 protocol_version)) in
    let b5 = write_at b4 24 (le 4 (length response_channel)) in write_at b5 28 response_channel

-- `now` is the time of system_clock in milliseconds, taken when no timestamp is given.
unfoldable pub encode_topic_message : ℤ → Bytes → Bytes → Bytes → Bytes → Bytes → ℤ → Result Bytes
encode_topic_message now topic message_type uuid payload headers timestamp = do
  let stamp = if eq_ℤ timestamp (pos 0) then now else timestamp
  computed ←
      compute_length (length topic) (length message_type) (length uuid) (length payload)
        (length headers)
  let total_size = sbe_block_and_header_length + computed
  wrapped ← wrap_and_apply_header (replicate total_size 0) 0 total_size
  let stamped = set_sequence_number 0 (set_timestamp (to_u64 stamp) wrapped)
  t1 ← put_topic topic stamped
  t2 ← put_message_type message_type t1
  t3 ← put_uuid uuid t2
  t4 ← put_payload payload t3
  t5 ← put_headers headers t4
  ok (take (encoded_length t5) t5.buffer)
