-- ===== src/Session/Publish.antt =====
-- publish_message with create_topic_message, and the waits between the attempts of a send. The debug
-- output of create_topic_message, which reads the message again, is left out.
pub mod Delivery
pub mod Waits
use aeron_cluster_client_cpp.Prelude.{
  ℕ, ◌+◌, ◌*◌, Bytes, Bool, true, false, not, ◌&&◌, length, take, replicate, ltb, if◌then◌else◌,
}
use aeron_cluster_client_cpp.Prelude.Int.{ℤ, pos, negsuc, to_u64, is_positive}
use aeron_cluster_client_cpp.Sbe.Exception.{Result, ok, throws, ◌>>=◌}
use aeron_cluster_client_cpp.Sbe.TopicMessage.{
  TopicMessage, compute_length, wrap_and_apply_header, set_timestamp, encoded_length, put_topic,
  put_message_type, put_uuid, put_payload, put_headers, sbe_block_and_header_length,
}
use aeron_cluster_client_cpp.Session.State.{Config, Session}
use aeron_cluster_client_cpp.Session.Send.{Link, is_connected, send_combined_message}

-- `now` is what get_current_timestamp gives, the nanoseconds of high_resolution_clock. The sequence
-- number stays 0, as the new vector has it.
unfoldable pub create_topic_message : ℤ → Bytes → Bytes → Bytes → Bytes → Bytes → Result Bytes
create_topic_message now topic message_type message_id payload headers = do
  computed ←
      compute_length (length topic) (length message_type) (length message_id) (length payload)
        (length headers)
  let total_size = sbe_block_and_header_length + computed
  wrapped ← wrap_and_apply_header (replicate total_size 0) 0 total_size
  let stamped = set_timestamp (to_u64 now) wrapped
  t1 ← put_topic topic stamped
  t2 ← put_message_type message_type t1
  t3 ← put_uuid message_id t2
  t4 ← put_payload payload t3
  t5 ← put_headers headers t4
  ok (take (encoded_length t5) t5.buffer)

-- The `try` block: an exception is reported as false.
abbrev pub send_created : Config → Bool → Link → Result Bytes → Session → Session × Bool
send_created c up_before link (ok business_message) s =
    send_combined_message c up_before link business_message s
send_created c up_before link (throws e) s = (s, false)

-- `up_first`, `up_before` and `link.up` are the answers of the three checks of the connection.
unfoldable pub publish_message :
    Config
    → Bool
    → Bool
    → Link
    → ℤ
    → Bytes
    → Bytes
    → Bytes
    → Bytes
    → Bytes
    → Session
    → Session × Bool
unfolding is_connected create_topic_message send_combined_message
publish_message c up_first up_before link now topic message_type message_id payload headers s =
    let created = create_topic_message now topic message_type message_id payload headers in
    let sent = send_created c up_before link created s in
    if not (is_connected up_first s) then (s, false) else sent

-- What a wait does: it yields the processor, or sleeps for a number of microseconds.
pub data Wait : Type 0 where
  yields : Wait
  sleeps : ℕ → Wait

abbrev pub positive_part : ℤ → ℕ
positive_part (pos n) = n
positive_part (negsuc n) = 0

-- The products stay below 2 ^ 63 microseconds, so they do not wrap.
unfoldable pub wait_before_publish_retry : Config → ℕ → Wait
wait_before_publish_retry c attempt =
    let base =
      if is_positive c.publish_retry_idle_base
      then positive_part c.publish_retry_idle_base
      else 100 in
    let wanted = base * (attempt + 1) in
    let idle_max = positive_part c.publish_retry_idle_max in
    let delay =
      if is_positive c.publish_retry_idle_max && ltb idle_max wanted then idle_max else wanted in
    if not (is_positive c.publish_retry_idle_base) && not (is_positive c.publish_retry_idle_max)
    then yields
    else if ltb 0 delay
    then sleeps delay
    else yields

-- apply_publish_rate_limit
unfoldable pub apply_publish_rate_limit : Config → Wait
apply_publish_rate_limit c =
    if is_positive c.publish_rate_limit_delay
    then sleeps (positive_part c.publish_rate_limit_delay)
    else yields
