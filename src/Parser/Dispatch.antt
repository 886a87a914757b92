-- ===== src/Parser/Dispatch.antt =====
-- How `parse_message` picks a decoder.
use aeron_cluster_client_cpp.Prelude.{
  ℕ, ◌≤◌, ◌<◌, ◌≡◌, ◌≢◌, refl, ap, ◌∙◌, Bytes, [], ◌∷◌, ◌++◌, length, drop, le, from_le-le, read_le,
  arith,
}
use aeron_cluster_client_cpp.Prelude.Int.{
  ℤ, to_u64, to_u32, of_u64, IsI64, of_u64-to_u64, to_u64-lt,
}
use aeron_cluster_client_cpp.Json.{JsonLib}
use aeron_cluster_client_cpp.Sbe.Header.{MessageHeader, read_header}
use aeron_cluster_client_cpp.Encoder.{encode_session_connect_request}
use aeron_cluster_client_cpp.Encoder.Layout.{connect_request, encode_session_connect_request_layout}
use aeron_cluster_client_cpp.Decoder.{accepted, SessionEvent, string_limit, decode_session_event}
use aeron_cluster_client_cpp.Decoder.Events.{
  session_event_bytes, event_block, EventFits, decode_session_event_bytes,
}
use aeron_cluster_client_cpp.Parser.{
  parse_message, parse_session_event, parse_topic_message, parse_embedded,
  decode_acknowledgment_with_sbe, event_result, extract_correlation_id,
}
use aeron_cluster_client_cpp.Parser.Outcome.{is_topic_message}

-- The header of a SessionEvent.
abbrev pub event_header : MessageHeader
event_header = record { block_length = 32; template_id = 2; schema_id = 111; version = 8 }

-- The header of 32 bytes that session messages have in both directions.
abbrev pub session_header : ℕ → ℕ → ℕ → Bytes
session_header term session timestamp =
    le 2 24 ++ (le 2 1 ++ (le 2 111 ++ (le 2 8 ++ (le 8 term ++ (le 8 session ++ le 8 timestamp)))))

parsed :
    (memory : Bytes) (e : SessionEvent × Bytes) (h : MessageHeader)
    → read_header memory ≡ h
    → decode_session_event memory ≡ accepted e
    → parse_session_event memory ≡ accepted (event_result h e)
unfolding parse_session_event
parsed memory e h header decoded = rw (decoded, header)

-- A message of at least eight bytes with template 2 and schema 1, an Acknowledgment, is taken for a
-- topic message: the result of `parse_message` is that of `decode_acknowledgment_with_sbe`.
parse_message_acknowledgment :
    (lib : JsonLib) (memory : Bytes)
    → 8 ≤ length memory
    → (read_header memory).template_id ≡ 2
    → (read_header memory).schema_id ≡ 1
    → parse_message lib memory ≡ accepted (decode_acknowledgment_with_sbe memory)
unfolding parse_message parse_topic_message is_topic_message
parse_message_acknowledgment lib memory long template schema = ground arith

route_event :
    (lib : JsonLib) (memory : Bytes)
    → 8 ≤ length memory
    → (read_header memory).template_id ≡ 2
    → (read_header memory).schema_id ≡ 111
    → parse_message lib memory ≡ parse_session_event memory
unfolding parse_message
route_event lib memory long template schema = ground arith

route_session_message :
    (lib : JsonLib) (memory body : Bytes)
    → 32 < length memory
    → (read_header memory).block_length ≡ 24
    → (read_header memory).template_id ≡ 1
    → (read_header memory).schema_id ≡ 111
    → drop 32 memory ≡ body
    → parse_message lib memory ≡ parse_embedded lib body
unfolding parse_message parse_topic_message is_topic_message
route_session_message lib memory body long block template schema rest = ground arith

found_correlation_id :
    (memory : Bytes) (c : ℤ)
    → 16 ≤ length memory
    → (read_header memory).schema_id ≡ 111
    → of_u64 (read_le 8 8 memory) ≡ c
    → extract_correlation_id memory ≡ c
unfolding extract_correlation_id
found_correlation_id memory c long schema found = ground arith

-- A SessionEvent message whose values fit their fields and whose detail has at most 10 MiB is parsed
-- to the event's fields, with its detail as the payload.
pub parse_message_session_event :
    (lib : JsonLib) (e : SessionEvent) (detail : Bytes)
    → EventFits e
    → length detail ≤ string_limit
    → parse_message lib (session_event_bytes e detail)
      ≡ accepted (event_result event_header (e, detail))
unfolding session_event_bytes event_block read_header
parse_message_session_event lib e detail fits small =
    route_event lib (session_event_bytes e detail) (omega arith) refl refl
    ∙ parsed (session_event_bytes e detail) (e, detail) event_header refl
        (decode_session_event_bytes e detail fits small)

-- A session message header with a message behind it that is not empty is parsed as that message.
pub parse_message_session_message :
    (lib : JsonLib) (term session timestamp : ℕ) (body : Bytes)
    → body ≢ []
    → parse_message lib (session_header term session timestamp ++ body) ≡ parse_embedded lib body
unfolding read_header
parse_message_session_message lib term session timestamp [] h = absurd (h refl)
parse_message_session_message lib term session timestamp (b ∷ body) h =
    route_session_message lib (session_header term session timestamp ++ (b ∷ body)) (b ∷ body)
      (omega arith) refl refl refl refl

-- For a 64-bit correlation id, `extract_correlation_id` finds in the connect request the correlation
-- id that the request was made with.
pub extract_correlation_id_connect :
    (correlation_id stream_id version : ℤ) (channel : Bytes)
    → IsI64 correlation_id
    → extract_correlation_id
        (encode_session_connect_request correlation_id stream_id channel version)
      ≡ correlation_id
unfolding connect_request read_header
extract_correlation_id_connect correlation_id stream_id version channel small =
    rw (encode_session_connect_request_layout correlation_id stream_id version channel) (
      found_correlation_id
        (connect_request (to_u64 correlation_id) (to_u32 stream_id) (to_u32 version) channel)
        correlation_id (omega arith) refl
        (ap of_u64 (from_le-le 8 (to_u64 correlation_id) (to_u64-lt correlation_id))
          ∙ of_u64-to_u64 correlation_id small))
