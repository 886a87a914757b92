-- ===== src/Decoder.antt =====
-- SBEDecoder of src/sbe_encoder.cpp. Memory behind `data` is the list of its `length` bytes, and a
-- null pointer is the empty list: all readers refuse both. Debug output is left out.
pub mod Strings
pub mod Events
pub mod Overreads
use aeron_cluster_client_cpp.Prelude.{
  ℕ, ◌+◌, ◌-◌, ◌*◌, Bytes, [], Bool, true, false, ◌&&◌, ◌||◌, Option, none, some, length, take,
  drop, read_le, ltb, ◌==◌, if◌then◌else◌,
}
use aeron_cluster_client_cpp.Prelude.Int.{ℤ, of_u64, of_u32}
use aeron_cluster_client_cpp.Sbe.Header.{
  MessageHeader, read_header, sizeof_message_header, cluster_schema_id, topic_schema_id,
  session_event_template_id, acknowledgment_template_id,
}

-- What a decoder does: it returns true with what it read, it returns false, or it reads past the
-- end of the memory that it was given, after which nothing is known.
pub data Decoded {ℓ} (A : Type ℓ) : Type ℓ where
  accepted : A → Decoded A
  refused : Decoded A
  overread : Decoded A

infixl 5 ◌>>=◌
abbrev pub ◌>>=◌ {ℓ κ} : {A : Type ℓ} {B : Type κ} → Decoded A → (A → Decoded B) → Decoded B
accepted a >>= f = f a
refused >>= f = refused
overread >>= f = overread

unfoldable pub decode_message_header : Bytes → Option MessageHeader
decode_message_header memory =
    if ltb (length memory) sizeof_message_header then none else some (read_header memory)

unfoldable pub validate_header : MessageHeader → ℕ → ℕ → Bool
validate_header header expected_template_id expected_schema_id =
    header.template_id == expected_template_id && header.schema_id == expected_schema_id

-- 10 * 1024 * 1024
abbrev pub string_limit : ℕ
string_limit = 10485760

-- `accepted (offset, output)` is the offset behind the string, and `refused` is the result 0.
-- The length is checked against `remaining_length`, whatever the offset is.
unfoldable pub extract_variable_string : Bytes → ℕ → ℕ → Decoded (ℕ × Bytes)
extract_variable_string memory offset remaining_length =
    let size = read_le 4 offset memory in
    let start = offset + 4 in
    if ltb remaining_length (offset + 4)
    then refused
    else if ltb (remaining_length - 4) size || ltb string_limit size
    then refused
    else if ltb 0 size
    then (if ltb (length memory) (start + size)
        then overread
        else accepted (start + size, take size (drop start memory)))
    else accepted (start, [])

pub record SessionEvent : Type 0 where
  pub correlation_id : ℤ
  pub cluster_session_id : ℤ
  pub leadership_term_id : ℤ
  pub leader_member_id : ℤ
  pub code : ℤ

-- `memcpy` of the packed structure of 32 bytes.
unfoldable pub read_session_event : Bytes → SessionEvent
read_session_event memory = record {
  correlation_id = of_u64 (read_le 8 0 memory);
  cluster_session_id = of_u64 (read_le 8 8 memory);
  leadership_term_id = of_u64 (read_le 8 16 memory);
  leader_member_id = of_u32 (read_le 4 24 memory);
  code = of_u32 (read_le 4 28 memory);
}

-- The detail stays empty where it cannot be extracted.
abbrev detail_of : Decoded (ℕ × Bytes) → Decoded Bytes
detail_of (accepted (offset, s)) = accepted s
detail_of refused = accepted []
detail_of overread = overread

unfoldable pub decode_session_event : Bytes → Decoded (SessionEvent × Bytes)
unfolding validate_header
decode_session_event memory =
    let header = read_header memory in
    let remaining = length memory - sizeof_message_header - 32 in
    let event = read_session_event (drop sizeof_message_header memory) in
    let extracted = detail_of (extract_variable_string (drop 40 memory) 0 remaining) in
    let detail = if ltb 0 remaining then extracted else accepted [] in
    if ltb (length memory) (sizeof_message_header + 32)
    then refused
    else if validate_header header session_event_template_id cluster_schema_id
    then detail >>= (λ d. accepted (event, d))
    else refused

pub record AckFields : Type 0 where
  pub message_id : Bytes
  pub status : Bytes
  pub error : Bytes
  pub timestamp : ℤ

unfoldable pub decode_acknowledgment : Bytes → Decoded AckFields
unfolding validate_header
decode_acknowledgment memory =
    let header = read_header memory in
    let stamp = of_u64 (read_le 8 0 (drop sizeof_message_header memory)) in
    let body = drop 16 memory in
    let remaining = length memory - sizeof_message_header - 8 in
    let fields = extract_variable_string body 0 remaining >>= (λ first.
      extract_variable_string body first.0 remaining >>= (λ second.
        let third = detail_of (extract_variable_string body second.0 remaining) in
        (if ltb second.0 remaining then third else accepted []) >>= (λ error. accepted (record {
          message_id = first.1;
          status = second.1;
          error = error;
          timestamp = stamp;
        })))) in
    if ltb (length memory) (sizeof_message_header + 8)
    then refused
    else if validate_header header acknowledgment_template_id topic_schema_id
    then fields
    else refused
