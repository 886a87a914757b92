-- ===== src/Parser/Messages.antt =====
-- TopicMessages from the encoder to the decoder.
use aeron_cluster_client_cpp.Prelude.{
  ℕ, ◌+◌, ◌-◌, ◌^◌, ◌<◌, ◌≡◌, sym, ap, ◌∙◌, Bytes, [], length, take, take_all, leb, if◌then◌else◌,
  le_refl, arith,
}
use aeron_cluster_client_cpp.Prelude.Int.{ℤ, pos, eq_ℤ, to_u64, to_u64-lt}
use aeron_cluster_client_cpp.Json.{JsonLib}
use aeron_cluster_client_cpp.Sbe.Exception.{ok, buffer_too_short}
use aeron_cluster_client_cpp.Encoder.{encode_topic_message}
use aeron_cluster_client_cpp.Encoder.Cut.{topic_message_bytes, Fit, encode_topic_message_cut}
use aeron_cluster_client_cpp.Parser.{decode_topic_message_with_sbe}
use aeron_cluster_client_cpp.Decoder.{Decoded, accepted, overread}
use aeron_cluster_client_cpp.Parser.Outcome.{ParseResult, failed, topic_decoding_failed}
use aeron_cluster_client_cpp.Parser.Truncation.{
  received, decode_topic_message_with_sbe-take, length-topic_message_bytes,
}

-- A whole TopicMessage whose five strings have at most 65534 bytes each, and whose timestamp is below
-- 2 ^ 64, is decoded to its timestamp, type, identifier, payload and headers, with the sequence
-- number that the search in its payload finds.
pub decode_topic_message_bytes :
    (lib : JsonLib) (stamp sequence : ℕ) (t m u p h : Bytes)
    → Fit t m u p h
    → stamp < 2 ^ 64
    → decode_topic_message_with_sbe lib (topic_message_bytes stamp sequence t m u p h)
      ≡ accepted (received lib stamp m u p h)
decode_topic_message_bytes lib stamp sequence t m u p h fit small =
    let full = topic_message_bytes stamp sequence t m u p h in
    let n = length-topic_message_bytes stamp sequence t m u p h in
    ap (decode_topic_message_with_sbe lib)
      (sym (take_all full (length full) (le_refl (length full))))
    ∙ decode_topic_message_with_sbe-take lib stamp sequence t m u p h (length full) fit small
        (omega (arith, n)) (omega arith)
    ∙ ground (arith, n)

-- What the decoder makes of a TopicMessage that lacks its last eight bytes, by the lengths of its
-- strings.
unfoldable pub of_short_message : JsonLib → ℕ → Bytes → Bytes → Bytes → Bytes → Decoded ParseResult
of_short_message lib stamp m u p h =
    let tail = length p + length h in
    let too_short = accepted (failed (topic_decoding_failed buffer_too_short)) in
    if leb 8 (length h)
    then overread
    else if leb 6 (length h)
    then accepted (received lib stamp m u p [])
    else if leb 6 tail
    then overread
    else if leb 4 tail
    then too_short
    else if leb 4 (length u + tail)
    then overread
    else if leb 2 (length u + tail)
    then too_short
    else if leb 2 (length m + length u + tail)
    then overread
    else too_short

-- The decoder on a message without its last eight bytes.
pub decode_short :
    (lib : JsonLib) (stamp : ℕ) (t m u p h : Bytes)
    → Fit t m u p h
    → stamp < 2 ^ 64
    → (let full = topic_message_bytes stamp 0 t m u p h in
        decode_topic_message_with_sbe lib (take (length full - 8) full))
      ≡ of_short_message lib stamp m u p h
unfolding of_short_message
decode_short lib stamp t m u p h fit small =
    let full = topic_message_bytes stamp 0 t m u p h in
    let n = length-topic_message_bytes stamp 0 t m u p h in
    decode_topic_message_with_sbe-take lib stamp 0 t m u p h (length full - 8) fit small
      (omega (arith, n)) (omega arith)
    ∙ ground (arith, n)

-- For five strings of at most 65534 bytes each, `encode_topic_message` returns a message, which lacks
-- its last eight bytes and does not come back whole: if the headers have at least eight bytes, the
-- decoder reads past the end of the message; if they have six or seven, it returns the message with
-- empty headers; if they have fewer, it never returns the message: depending on the lengths of the
-- other strings it reads past the end, or reports that the buffer is too short.
pub decode-encode_topic_message :
    (lib : JsonLib) (now timestamp : ℤ) (t m u p h : Bytes)
    → Fit t m u p h
    → (message : Bytes) × (encode_topic_message now t m u p h timestamp ≡ ok message)
      × (decode_topic_message_with_sbe lib message
          ≡ of_short_message lib
              (to_u64 (if eq_ℤ timestamp (pos 0) then now else timestamp))
              m
              u
              p
              h)
decode-encode_topic_message lib now timestamp t m u p h fit =
    let stamp = to_u64 (if eq_ℤ timestamp (pos 0) then now else timestamp) in
    let full = topic_message_bytes stamp 0 t m u p h in
    (
      take (length full - 8) full,
      encode_topic_message_cut now timestamp t m u p h fit,
      decode_short lib stamp t m u p h fit
          (to_u64-lt (if eq_ℤ timestamp (pos 0) then now else timestamp)),
    )
