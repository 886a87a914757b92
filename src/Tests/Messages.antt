-- ===== src/Tests/Messages.antt =====
-- The theorems on messages at concrete messages.
use aeron_cluster_client_cpp.Prelude.{
  ℕ, ◌+◌, ◌≤◌, ◌≡◌, refl, Bytes, [], ◌∷◌, true, false, none, some, length, take, if◌then◌else◌,
  arith, str,
}
use aeron_cluster_client_cpp.Prelude.Int.{pos, to_u64, eq_ℤ}
use aeron_cluster_client_cpp.Json.{JsonLib}
use aeron_cluster_client_cpp.Sbe.Exception.{ok, buffer_too_short}
use aeron_cluster_client_cpp.Sbe.Header.{read_header}
use aeron_cluster_client_cpp.Sbe.Read.{Read, got, threw, past_end, checked, ◌>>=◌}
use aeron_cluster_client_cpp.Sbe.TopicMessage.Extent.{extent}
use aeron_cluster_client_cpp.Sbe.TopicMessage.Getters.{timestamp}
use aeron_cluster_client_cpp.Sbe.TopicMessage.{wrap_for_decode, header_wrap}
use aeron_cluster_client_cpp.Sbe.TopicMessage.Skipping.{decode_length}
use aeron_cluster_client_cpp.Parser.Skipping.{measured, decode_length-compute_length}
use aeron_cluster_client_cpp.Encoder.{encode_topic_message, encode_session_keep_alive}
use aeron_cluster_client_cpp.Encoder.Layout.{session_message, encode_session_keep_alive_layout}
use aeron_cluster_client_cpp.Encoder.Cut.{topic_message_bytes, Fit}
use aeron_cluster_client_cpp.Decoder.{accepted, overread, SessionEvent, decode_acknowledgment}
use aeron_cluster_client_cpp.Decoder.Overreads.{
  acknowledgment_bytes, decode_acknowledgment_overreads,
}
use aeron_cluster_client_cpp.Decoder.Events.{session_event_bytes}
use aeron_cluster_client_cpp.Parser.{
  decode_topic_message_with_sbe, parse_message, parse_topic_message, event_result,
}
use aeron_cluster_client_cpp.Parser.Outcome.{is_topic_message}
use aeron_cluster_client_cpp.Parser.Truncation.{received, taken, decode_topic_message_with_sbe-take}
use aeron_cluster_client_cpp.Parser.Messages.{
  decode_topic_message_bytes, decode-encode_topic_message, of_short_message,
}
use aeron_cluster_client_cpp.Parser.Dispatch.{parse_message_session_event, event_header}

-- A JSON library that reads a text as its own length, a number.
abbrev pub counting_lib : JsonLib
counting_lib = record {
  Value = ℕ;
  parse_from_stream = λ text. some (length text);
  is_object = λ v. false;
  is_member = λ v key. none;
  member = λ v key. none;
  is_uint64 = λ v. true;
  as_uint64 = λ v. v;
  is_int64 = λ v. true;
  as_int64 = λ v. v;
  is_numeric = λ v. true;
  as_double = λ v. v;
  is_string = λ v. false;
  as_string = λ v. [];
  to_text = λ v. none;
  stoull = λ s. none;
}

abbrev topic_text : Bytes
topic_text = 111 ∷ 114 ∷ []

abbrev type_text : Bytes
type_text = 78 ∷ []

abbrev uuid_text : Bytes
uuid_text = 55 ∷ 56 ∷ []

abbrev payload_text : Bytes
payload_text = 123 ∷ 125 ∷ []

abbrev headers_text : Bytes
headers_text = 123 ∷ 32 ∷ 32 ∷ 32 ∷ 32 ∷ 125 ∷ []

texts-Fit : Fit topic_text type_text uuid_text payload_text headers_text
texts-Fit = (omega arith, omega arith, omega arith, omega arith, omega arith)

decode-encode_topic_message_example :
    (message : Bytes) × (encode_topic_message
        (pos 1)
        topic_text
        type_text
        uuid_text
        payload_text
        headers_text
        (pos 0)
      ≡ ok message)
    × (decode_topic_message_with_sbe counting_lib message
        ≡ of_short_message counting_lib
            (to_u64 (if eq_ℤ (pos 0) (pos 0) then pos 1 else pos 0))
            type_text
            uuid_text
            payload_text
            headers_text)
decode-encode_topic_message_example =
    decode-encode_topic_message counting_lib (pos 1) (pos 0) topic_text type_text uuid_text
      payload_text headers_text texts-Fit

decode_topic_message_bytes_example :
    decode_topic_message_with_sbe counting_lib
      (topic_message_bytes 7 9 topic_text type_text uuid_text payload_text headers_text)
    ≡ accepted (received counting_lib 7 type_text uuid_text payload_text headers_text)
decode_topic_message_bytes_example =
    decode_topic_message_bytes counting_lib 7 9 topic_text type_text uuid_text payload_text
      headers_text texts-Fit (omega arith)

room :
    24 ≤ 40
    × (40
        ≤ length (topic_message_bytes 7 9 topic_text type_text uuid_text payload_text headers_text))
unfolding topic_message_bytes
room = (omega arith, omega arith)

decode_topic_message_with_sbe-take_example :
    decode_topic_message_with_sbe counting_lib
      (take 40 (topic_message_bytes 7 9 topic_text type_text uuid_text payload_text headers_text))
    ≡ taken
        (extent 40 24 (topic_text ∷ type_text ∷ uuid_text ∷ payload_text ∷ []))
        (extent 40
          (32 + length topic_text + length type_text + length uuid_text + length payload_text)
          (headers_text ∷ []))
        (received counting_lib 7 type_text uuid_text payload_text)
        headers_text
decode_topic_message_with_sbe-take_example =
    decode_topic_message_with_sbe-take counting_lib 7 9 topic_text type_text uuid_text payload_text
      headers_text 40 texts-Fit (omega arith) room.0 room.1

-- With six bytes of headers, nothing but the headers is lost; with ten, the decoder reads past the
-- end.
short_headers :
    of_short_message counting_lib 1 type_text uuid_text payload_text headers_text
    ≡ accepted (received counting_lib 1 type_text uuid_text payload_text [])
unfolding of_short_message
short_headers = refl

long_headers :
    of_short_message counting_lib 1 type_text uuid_text payload_text (str "0123456789") ≡ overread
unfolding of_short_message
long_headers = refl

-- A message of eight bytes, a header of a TopicMessage with the block length 0.
abbrev bare_header : Bytes
bare_header = 0 ∷ 0 ∷ 1 ∷ 0 ∷ 1 ∷ 0 ∷ 1 ∷ 0 ∷ []

bare_header_overreads : parse_message counting_lib bare_header ≡ overread
unfolding parse_message read_header is_topic_message parse_topic_message
    decode_topic_message_with_sbe header_wrap wrap_for_decode timestamp
bare_header_overreads = refl

-- The status says that it has five bytes, and has one.
decode_acknowledgment_overreads_example :
    decode_acknowledgment (acknowledgment_bytes 8 1 7 (str "AB") 5 (str "x")) ≡ overread
decode_acknowledgment_overreads_example =
    decode_acknowledgment_overreads 8 1 7 (str "AB") 5 (str "x") (omega arith) (omega arith)
      (omega arith) (omega arith)

abbrev ok_event : SessionEvent
ok_event = record {
  leadership_term_id = pos 3;
  correlation_id = pos 5;
  cluster_session_id = pos 7;
  leader_member_id = pos 1;
  code = pos 0;
}

abbrev an_event : Bytes
an_event = session_event_bytes ok_event (79 ∷ [])

decode_length-compute_length_example :
    (do
      f ← checked (
          wrap_for_decode
            (take 40
              (topic_message_bytes 7 9 topic_text type_text uuid_text payload_text headers_text))
            8
            16
            1
            40)
      decode_length f)
    ≡ measured topic_text type_text uuid_text payload_text headers_text
        (extent 40 24 (topic_text ∷ type_text ∷ uuid_text ∷ payload_text ∷ headers_text ∷ []))
decode_length-compute_length_example =
    decode_length-compute_length 7 9 topic_text type_text uuid_text payload_text headers_text 40
      texts-Fit (omega arith) room.1

-- Cut in the length of the headers, one byte short, and whole.
abbrev length_at : ℕ → Read ℕ
length_at limit = do
  f ← checked (
      wrap_for_decode
        (take limit
          (topic_message_bytes 7 9 topic_text type_text uuid_text payload_text headers_text))
        8 16 1 limit)
  decode_length f

length_at_40 : length_at 40 ≡ past_end
unfolding decode_length topic_message_bytes
length_at_40 = refl

length_at_46 : length_at 46 ≡ threw buffer_too_short
unfolding decode_length topic_message_bytes
length_at_46 = refl

length_at_47 : length_at 47 ≡ got 39
unfolding decode_length topic_message_bytes
length_at_47 = refl

parse_message_session_event_example :
    parse_message counting_lib (session_event_bytes ok_event (79 ∷ []))
    ≡ accepted (event_result event_header (ok_event, 79 ∷ []))
parse_message_session_event_example =
    parse_message_session_event counting_lib ok_event (79 ∷ [])
      (record {
        correlation = omega arith;
        session = omega arith;
        term = omega arith;
        leader = omega arith;
        event_code = omega arith;
      })
      (omega arith)

encode_session_keep_alive_layout_example :
    encode_session_keep_alive (pos 3) (pos 7) ≡ session_message 5 (to_u64 (pos 3)) (to_u64 (pos 7))
encode_session_keep_alive_layout_example = encode_session_keep_alive_layout (pos 3) (pos 7)
