-- ===== src/Parser/Truncation.antt =====
-- Decoding the first bytes of a TopicMessage.
use aeron_cluster_client_cpp.Prelude.{
  ℕ, ◌+◌, ◌-◌, ◌^◌, ◌≤◌, ◌<◌, ◌≡◌, ap, subst, ◌∙◌, Bytes, [], ◌∷◌, ◌++◌, true, length, take,
  read_le, from_le-le, length-append, take-append_more, arith,
}
use aeron_cluster_client_cpp.Prelude.Int.{of_u64}
use aeron_cluster_client_cpp.Json.{JsonLib}
use aeron_cluster_client_cpp.Sbe.Exception.{ok, buffer_too_short}
use aeron_cluster_client_cpp.Sbe.Read.{got}
use aeron_cluster_client_cpp.Decoder.{Decoded, accepted, overread}
use aeron_cluster_client_cpp.Sbe.Header.{MessageHeader, read_header}
use aeron_cluster_client_cpp.Sbe.TopicMessage.{TopicMessage, header_wrap}
use aeron_cluster_client_cpp.Sbe.TopicMessage.Getters.{timestamp, sequence_number}
use aeron_cluster_client_cpp.Sbe.TopicMessage.Extent.{
  Extent, extent, whole_fields, data_cut, length_cut,
}
use aeron_cluster_client_cpp.Sbe.TopicMessage.Fields.{field, length-field}
use aeron_cluster_client_cpp.Encoder.Cut.{topic_block, topic_message_bytes, Fit}
use aeron_cluster_client_cpp.Parser.{decode_topic_message_with_sbe}
use aeron_cluster_client_cpp.Parser.Outcome.{
  ParseResult, empty_result, failed, with_header, topic_decoding_failed,
}
use aeron_cluster_client_cpp.Parser.Sequence.{payload_sequence}
use aeron_cluster_client_cpp.Parser.Opened.{
  wrap_for_decode_lem, after_block, whole, start, answers, cut_length, regrouped,
}

-- The header of every TopicMessage.
abbrev pub topic_header : MessageHeader
topic_header = record { block_length = 16; template_id = 1; schema_id = 1; version = 1 }

-- What the program takes from a TopicMessage: all but its topic and its own sequence number.
pub received : JsonLib → ℕ → Bytes → Bytes → Bytes → Bytes → ParseResult
received lib stamp message_type uuid payload headers =
    with_header topic_header (record empty_result {
      success = true;
      message_type = message_type;
      message_id = uuid;
      payload = payload;
      timestamp = of_u64 stamp;
      sequence_number = payload_sequence lib payload;
      headers = headers;
    })

-- What the decoder makes of a cut message: by the extent of its first four fields, and of its headers.
abbrev pub taken : Extent → Extent → (Bytes → ParseResult) → Bytes → Decoded ParseResult
taken whole_fields whole_fields result headers = accepted (result headers)
taken whole_fields length_cut result headers = accepted (result [])
taken whole_fields data_cut result headers = overread
taken length_cut later result headers = accepted (failed (topic_decoding_failed buffer_too_short))
taken data_cut later result headers = overread

header_wrap_lem : (limit : ℕ) → 24 ≤ limit → header_wrap 0 limit ≡ ok tt
unfolding header_wrap
header_wrap_lem limit long = ground arith

module _ (stamp sequence : ℕ) (t m u p h : Bytes) (fit : Fit t m u p h) (limit : ℕ) where
  abbrev message : Bytes
  message = whole stamp sequence t m u p h fit limit

  abbrev opened : TopicMessage
  opened = start stamp sequence t m u p h fit limit

  abbrev behind : Bytes
  behind = after_block stamp sequence t m u p h fit limit

  cut : 24 ≤ limit → take limit message ≡ topic_block stamp sequence ++ take (limit - 24) behind
  cut long = take-append_more (topic_block stamp sequence) behind limit long

  cut_header : 24 ≤ limit → read_header (take limit message) ≡ topic_header
  unfolding read_header
  cut_header long = ap read_header (cut long)

  cut_stamp : 24 ≤ limit → stamp < 2 ^ 64 → read_le 8 8 (take limit message) ≡ stamp
  cut_stamp long small = ap (read_le 8 8) (cut long) ∙ from_le-le 8 stamp small

  abbrev expected : JsonLib → Decoded ParseResult
  expected lib =
      taken (extent limit 24 (t ∷ m ∷ u ∷ p ∷ []))
        (extent limit (32 + length t + length m + length u + length p) (h ∷ []))
        (received lib stamp m u p) h

  timestamp-opened :
      24 ≤ limit → limit ≤ length message → stamp < 2 ^ 64 → timestamp opened ≡ got stamp
  unfolding timestamp
  timestamp-opened long within small =
      ground (arith, cut_length stamp sequence t m u p h fit limit within, cut_stamp long small)

  sequence_number_lem :
      (position : ℕ)
      → 24 ≤ limit
      → limit ≤ length message
      → sequence_number (record opened { position = position })
        ≡ got (read_le 8 16 (take limit message))
  unfolding sequence_number
  sequence_number_lem position long within =
      ground (arith, cut_length stamp sequence t m u p h fit limit within)

  decode_cut :
      (lib : JsonLib)
      → 24 ≤ limit
      → limit ≤ length message
      → stamp < 2 ^ 64
      → decode_topic_message_with_sbe lib (take limit message) ≡ expected lib
  unfolding decode_topic_message_with_sbe received
  decode_cut lib long within small =
      let a = answers stamp sequence t m u p h fit limit within in
      rw
        (
          cut_header long,
          cut_length stamp sequence t m u p h fit limit within,
          header_wrap_lem limit long,
          wrap_for_decode_lem (take limit message) limit long,
          timestamp-opened long within small,
        )
        (ground (
          arith,
          a.topic,
          a.message_type,
          a.uuid,
          a.payload,
          a.headers,
          sequence_number_lem (24 + 2 + length t + 2 + length m + 2 + length u + 2 + length p) long
              within,
        ))

-- A whole message, by its length.
pub length-topic_message_bytes :
    (stamp sequence : ℕ) (t m u p h : Bytes)
    → length (topic_message_bytes stamp sequence t m u p h)
      ≡ 34 + length t + length m + length u + length p + length h
unfolding topic_message_bytes
length-topic_message_bytes stamp sequence t m u p h =
    let f0 = topic_block stamp sequence in
    let f1 = f0 ++ field t in
    let f2 = f1 ++ field m in
    let f3 = f2 ++ field u in
    omega (
      arith,
      length-append {0} f0 (field t),
      length-append {0} f1 (field m),
      length-append {0} f2 (field u),
      length-append {0} f3 (field p),
      length-append {0} (f3 ++ field p) (field h),
      length-field t,
      length-field m,
      length-field u,
      length-field p,
      length-field h,
    )

-- Of a TopicMessage whose five strings have at most 65534 bytes each and whose timestamp is below
-- 2 ^ 64, cut off anywhere behind its fixed block, the decoder takes the message if its first four
-- strings are whole, with the headers if they are whole too, and with empty headers if not even
-- their length is there; if the first of the four that is not whole has lost its length, it reports
-- that the buffer is too short; and in every other case, where a length is there and its string is
-- not whole, it reads past the end of what it was given.
pub decode_topic_message_with_sbe-take :
    (lib : JsonLib) (stamp sequence : ℕ) (t m u p h : Bytes) (limit : ℕ)
    → Fit t m u p h
    → stamp < 2 ^ 64
    → 24 ≤ limit
    → limit ≤ length (topic_message_bytes stamp sequence t m u p h)
    → decode_topic_message_with_sbe lib (take limit (topic_message_bytes stamp sequence t m u p h))
      ≡ taken
          (extent limit 24 (t ∷ m ∷ u ∷ p ∷ []))
          (extent limit (32 + length t + length m + length u + length p) (h ∷ []))
          (received lib stamp m u p)
          h
decode_topic_message_with_sbe-take lib stamp sequence t m u p h limit fit small long within =
    let e = regrouped stamp sequence t m u p h fit limit in
    ap (λ (b : Bytes). decode_topic_message_with_sbe lib (take limit b)) e
    ∙ decode_cut stamp sequence t m u p h fit limit lib long
        (subst (λ b. limit ≤ length b) e within) small

-- A cut message keeps its header.
pub read_header-take :
    (stamp sequence : ℕ) (t m u p h : Bytes) (limit : ℕ)
    → Fit t m u p h
    → 24 ≤ limit
    → read_header (take limit (topic_message_bytes stamp sequence t m u p h)) ≡ topic_header
read_header-take stamp sequence t m u p h limit fit long =
    ap (λ (b : Bytes). read_header (take limit b)) (regrouped stamp sequence t m u p h fit limit)
    ∙ cut_header stamp sequence t m u p h fit limit long
