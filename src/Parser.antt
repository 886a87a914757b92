-- ===== src/Parser.antt =====
-- MessageParser of src/sbe_encoder.cpp. Debug output is left out. The texts of `error_message` are
-- the constructors of `ErrorMessage`, with the numbers that they print.
pub mod Outcome
pub mod Sequence
pub mod Skipping
pub mod Opened
pub mod Truncation
pub mod Dispatch
pub mod Messages
use aeron_cluster_client_cpp.Prelude.{
  ℕ, zero, suc, ◌+◌, ◌-◌, Bytes, List, [], ◌∷◌, ◌++◌, Bool, true, false, ◌&&◌, ◌||◌, not, Option,
  none, some, length, drop, read_le, ltb, ◌==◌, if◌then◌else◌, str, is_empty, bytes_eq,
}
use aeron_cluster_client_cpp.Prelude.Int.{ℤ, pos, of_u64, ltb_ℤ}
use aeron_cluster_client_cpp.Sbe.Header.{
  MessageHeader, read_header, sizeof_message_header, cluster_schema_id, topic_schema_id,
}
use aeron_cluster_client_cpp.Sbe.Read.{Read, got, threw, past_end, checked, ◌>>=◌}
use aeron_cluster_client_cpp.Sbe.TopicMessage.{
  TopicMessage, header_wrap, header_length, wrap_for_decode,
}
use aeron_cluster_client_cpp.Sbe.TopicMessage.Getters.{
  timestamp, sequence_number, get_topic_as_string, get_message_type_as_string, get_uuid_as_string,
  get_payload_as_string, get_headers_as_string,
}
use aeron_cluster_client_cpp.Decoder.{
  Decoded, accepted, refused, overread, SessionEvent, AckFields, decode_message_header,
  decode_session_event, decode_acknowledgment,
}
use aeron_cluster_client_cpp.Text.{to_string, collect_runs, contains}
use aeron_cluster_client_cpp.Json.{JsonLib}
use Outcome.{
  ErrorMessage, no_error, null_or_empty, header_failed, session_event_failed, acknowledgment_failed,
  session_message_too_short, embedded_too_short, embedded_header_failed, insufficient_data,
  buffer_too_short_for_header, unknown_message_type, unknown_format, not_acknowledgment,
  not_topic_message, unknown_embedded_template, unknown_embedded_schema, unknown_direct_template,
  acknowledgment_too_short, topic_decoding_failed, ParseResult, empty_result, failed, with_header,
  is_session_event, is_topic_message, is_acknowledgment,
}
use Sequence.{payload_sequence}

-- `extracted_strings[i]`, or an empty field where there are fewer strings.
abbrev nth_string : List Bytes → ℕ → Bytes
nth_string [] i = []
nth_string (s ∷ rest) zero = s
nth_string (s ∷ rest) (suc i) = nth_string rest i

abbrev or_default : Bytes → Bytes → Bytes
or_default s d = if is_empty s then d else s

-- The strings of the body, and the defaults.
unfoldable pub acknowledgment_result : Bytes → ParseResult
unfolding collect_runs
acknowledgment_result memory =
    let stamp = read_le 8 8 memory in
    let strings : List Bytes =
      if ltb 16 (length memory) then collect_runs 3 (drop 16 memory) [] [] else [] in
    with_header (read_header memory) (record empty_result {
      success = true;
      message_type = str "Acknowledgment";
      timestamp = of_u64 stamp;
      message_id = or_default (nth_string strings 0) (str "ack_" ++ to_string stamp);
      payload = or_default (nth_string strings 1) (str "SUCCESS");
      headers = nth_string strings 2;
    })

unfoldable pub decode_acknowledgment_with_sbe : Bytes → ParseResult
unfolding acknowledgment_result
decode_acknowledgment_with_sbe memory =
    let h = read_header memory in
    if ltb (length memory) 8
    then failed buffer_too_short_for_header
    else if not (h.template_id == 2) || not (h.schema_id == 1)
    then failed (not_acknowledgment h.template_id h.schema_id)
    else if ltb (length memory) 16
    then failed (acknowledgment_too_short (length memory))
    else acknowledgment_result memory

-- The `try` blocks: what an exception leaves behind. A read past the end is no exception.
abbrev headers_or_empty : Read (Bytes × TopicMessage) → Read Bytes
headers_or_empty (got (headers, t)) = got headers
headers_or_empty (threw e) = got []
headers_or_empty past_end = past_end

abbrev result_or_failure : Read ParseResult → Decoded ParseResult
result_or_failure (got r) = accepted r
result_or_failure (threw e) = accepted (failed (topic_decoding_failed e))
result_or_failure past_end = overread

module _ (lib : JsonLib) where
  -- The fields of a TopicMessage whose header has been checked. The sequence number of the message
  -- is read and not used.
  unfoldable pub topic_result : Bytes → MessageHeader → Read ParseResult
  topic_result memory h = do
    t0 ← checked (wrap_for_decode memory header_length h.block_length h.version (length memory))
    stamp ← timestamp t0
    (topic, t1) ← get_topic_as_string t0
    (message_type, t2) ← get_message_type_as_string t1
    (uuid, t3) ← get_uuid_as_string t2
    (payload, t4) ← get_payload_as_string t3
    number ← sequence_number t4
    headers ← headers_or_empty (get_headers_as_string t4)
    got (
        with_header h (record empty_result {
          success = true;
          message_type = message_type;
          message_id = uuid;
          payload = payload;
          timestamp = of_u64 stamp;
          sequence_number = payload_sequence lib payload;
          headers = headers;
        }))

  -- `accepted` is the result, and `overread` a read past the end on the way to it.
  unfoldable pub decode_topic_message_with_sbe : Bytes → Decoded ParseResult
  unfolding topic_result
  decode_topic_message_with_sbe memory =
      let h = read_header memory in
      let decoded = (do
        done ← checked (header_wrap 0 (length memory))
        if not (h.template_id == 1) || not (h.schema_id == 1)
            then got (failed (not_topic_message h.template_id h.schema_id))
            else topic_result memory h) in
      result_or_failure decoded

  -- By the template of the message that a session message holds.
  unfoldable pub parse_embedded : Bytes → Decoded ParseResult
  parse_embedded memory =
      let h = read_header memory in
      if ltb (length memory) sizeof_message_header
      then accepted (failed embedded_too_short)
      else if h.schema_id == 1
      then (if h.template_id == 1
          then decode_topic_message_with_sbe memory
          else if h.template_id == 2
          then accepted (decode_acknowledgment_with_sbe memory)
          else accepted (failed (unknown_embedded_template h.template_id)))
      else accepted (failed (unknown_embedded_schema h.schema_id))

  unfoldable pub parse_topic_message : Bytes → Decoded ParseResult
  unfolding parse_embedded
  parse_topic_message memory =
      let h = read_header memory in
      let session_header_size = sizeof_message_header + h.block_length in
      if ltb (length memory) sizeof_message_header
      then accepted (failed insufficient_data)
      else if h.schema_id == 111
      then (if ltb session_header_size (length memory)
          then parse_embedded (drop session_header_size memory)
          else accepted (failed session_message_too_short))
      else if h.schema_id == 1
      then (if h.template_id == 1
          then decode_topic_message_with_sbe memory
          else if h.template_id == 2
          then accepted (decode_acknowledgment_with_sbe memory)
          else accepted (failed (unknown_direct_template h.template_id)))
      else accepted (failed (unknown_format h.schema_id h.template_id))

abbrev pub event_result : MessageHeader → SessionEvent × Bytes → ParseResult
event_result h (e, detail) = with_header h (record empty_result {
  success = true;
  message_type = str "SessionEvent";
  correlation_id = e.correlation_id;
  session_id = e.cluster_session_id;
  leader_member_id = e.leader_member_id;
  leadership_term_id = e.leadership_term_id;
  event_code = e.code;
  payload = detail;
})

-- A decoder's answer as a result.
abbrev result_of {ℓ} :
    {A : Type ℓ} → Decoded A → ErrorMessage → (A → ParseResult) → Decoded ParseResult
result_of (accepted a) e f = accepted (f a)
result_of refused e f = accepted (failed e)
result_of overread e f = overread

unfoldable pub parse_session_event : Bytes → Decoded ParseResult
parse_session_event memory =
    result_of (decode_session_event memory) session_event_failed (event_result (read_header memory))

abbrev acknowledgment_fields : MessageHeader → AckFields → ParseResult
acknowledgment_fields h a = with_header h (record empty_result {
  success = true;
  message_type = str "Acknowledgment";
  message_id = a.message_id;
  payload = a.status;
  headers = a.error;
  timestamp = a.timestamp;
})

unfoldable pub parse_acknowledgment : Bytes → Decoded ParseResult
parse_acknowledgment memory =
    result_of (decode_acknowledgment memory) acknowledgment_failed
      (acknowledgment_fields (read_header memory))

module _ (lib : JsonLib) where
  unfoldable pub parse_message : Bytes → Decoded ParseResult
  parse_message memory =
      let h = read_header memory in
      let r = with_header h empty_result in
      if length memory == 0
      then accepted (failed null_or_empty)
      else if ltb (length memory) sizeof_message_header
      then accepted (failed header_failed)
      else if is_session_event r
      then parse_session_event memory
      else if is_topic_message r
      then parse_topic_message lib memory
      else if is_acknowledgment r
      then parse_acknowledgment memory
      else accepted (with_header h (failed (unknown_message_type h.template_id h.schema_id)))

-- `MessageParser::extract_correlation_id`
unfoldable pub extract_correlation_id : Bytes → ℤ
extract_correlation_id memory =
    if ltb (length memory) (sizeof_message_header + 8)
    then pos 0
    else if (read_header memory).schema_id == cluster_schema_id
    then of_u64 (read_le 8 8 memory)
    else pos 0

-- `SBEUtils::is_valid_sbe_message`
unfoldable pub is_valid_sbe_message : Bytes → Bool
is_valid_sbe_message memory =
    let h = read_header memory in
    not (ltb (length memory) sizeof_message_header)
    && not (h.block_length == 0 || ltb 10000 h.block_length)
    && not (ltb (length memory) (sizeof_message_header + h.block_length))
    && (h.schema_id == cluster_schema_id || h.schema_id == topic_schema_id)

-- `SBEUtils::is_valid_correlation_id`
unfoldable pub is_valid_correlation_id : ℤ → Bool
is_valid_correlation_id c = ltb_ℤ (pos 0) c && not (ltb_ℤ (pos 0x7fff_ffff_ffff_ffff) c)
