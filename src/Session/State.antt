-- ===== src/Session/State.antt =====
-- The fields of SessionManager::Impl, its constructor and its two prepared buffers. Console output
-- and clock readings are left out.
use aeron_cluster_client_cpp.Prelude.{
  ℕ, Bytes, List, [], ◌∷◌, Bool, false, replicate, if◌then◌else◌,
}
use aeron_cluster_client_cpp.Prelude.Int.{ℤ, pos, minus_one}
use aeron_cluster_client_cpp.Sbe.Header.{
  cluster_schema_id, cluster_schema_version, session_keepalive_template_id,
}
use aeron_cluster_client_cpp.Encoder.{write_uint_16, write_int_64}

-- The settings that the session manager reads.
pub record Config : Type 0 where
  pub cluster_endpoints : List Bytes
  pub max_retries : ℤ
  pub publish_max_retry_attempts : ℤ
  pub publish_retry_idle_base : ℤ
  pub publish_retry_idle_max : ℤ
  pub publish_rate_limit_delay : ℤ
  pub egress_stream_id : ℤ
  pub response_channel : Bytes
  pub protocol_semantic_version : ℤ

-- The texts of `describe_offer_failure`.
pub data Description : Type 0 where
  no_description not_connected back_pressured admin_action closed : Description
  max_position_exceeded driver_error not_ready : Description
  unknown_status : ℤ → Description

pub record Session : Type 0 where
  pub session_id : ℤ
  pub leader_member_id : ℤ
  pub leadership_term_id : ℤ
  pub connected : Bool
  pub redirected_to_member_id : ℤ
  pub correlation_id : ℤ
  pub last_offer_error_code : ℤ
  pub last_offer_error_message : Description
  -- `ingress_publication_` is not null.
  pub ingress_publication : Bool
  pub session_header_buffer : Bytes
  pub keepalive_buffer : Bytes
  pub messages_sent : ℕ
  pub keepalives_sent : ℕ
  pub keepalives_failed : ℕ
  pub session_events_received : ℕ
  pub redirects_received : ℕ
  -- `connection_state_callback_` is set.
  pub has_state_callback : Bool
  -- What the callback was called with, the latest first.
  pub state_calls : List Bool
  -- The messages that the publication has taken, the latest first.
  pub taken : List Bytes

unfoldable pub create_session_message_header_buffer : Bytes
create_session_message_header_buffer =
    let b0 : Bytes = replicate 32 0 in
    let b1 = write_uint_16 b0 0 24 in
    let b2 = write_uint_16 b1 2 1 in
    let b3 = write_uint_16 b2 4 111 in
    let b4 = write_uint_16 b3 6 8 in
    let b5 = write_int_64 b4 8 (pos 0) in
    let b6 = write_int_64 b5 16 (pos 0) in write_int_64 b6 24 (pos 0)

unfoldable pub create_keepalive_buffer : Bytes
create_keepalive_buffer =
    let b0 : Bytes = replicate 24 0 in
    let b1 = write_uint_16 b0 0 16 in
    let b2 = write_uint_16 b1 2 session_keepalive_template_id in
    let b3 = write_uint_16 b2 4 cluster_schema_id in
    let b4 = write_uint_16 b3 6 cluster_schema_version in
    let b5 = write_int_64 b4 8 (pos 0) in write_int_64 b5 16 (pos 0)

unfoldable pub update_keepalive_buffer : Session → Session
update_keepalive_buffer s =
    let b = write_int_64 s.keepalive_buffer 8 s.leadership_term_id in
    record s { keepalive_buffer = write_int_64 b 16 s.session_id }

unfoldable pub update_session_header : Session → Session
update_session_header s =
    let b1 = write_int_64 s.session_header_buffer 8 s.leadership_term_id in
    let b2 = write_int_64 b1 16 s.session_id in
    record s { session_header_buffer = write_int_64 b2 24 (pos 0) }

-- The constructor. `correlation_id` is the clock's time, and the callback is set later or never.
unfoldable pub make_session : ℤ → Bool → Session
make_session correlation_id has_state_callback = record {
  session_id = minus_one;
  leader_member_id = pos 0;
  leadership_term_id = minus_one;
  connected = false;
  redirected_to_member_id = minus_one;
  correlation_id = correlation_id;
  last_offer_error_code = pos 0;
  last_offer_error_message = no_description;
  ingress_publication = false;
  session_header_buffer = create_session_message_header_buffer;
  keepalive_buffer = create_keepalive_buffer;
  messages_sent = 0;
  keepalives_sent = 0;
  keepalives_failed = 0;
  session_events_received = 0;
  redirects_received = 0;
  has_state_callback = has_state_callback;
  state_calls = [];
  taken = [];
}

-- `if (connection_state_callback_) connection_state_callback_(connected);`
abbrev pub call_state_callback : Bool → Session → Session
call_state_callback up s =
    if s.has_state_callback then record s { state_calls = up ∷ s.state_calls } else s
