-- ===== src/Client/Ingress.antt =====
-- publish_topic, offer_ingress, remember_outgoing and on_ack_default of the outer class ClusterClient
-- (src/cluster_client.cpp). The printed round trip times are left out.
pub mod Inflight
use aeron_cluster_client_cpp.Prelude.{
  ℕ, ◌+◌, Bytes, List, [], ◌∷◌, ◌++◌, Bool, true, false, length, is_empty, str, if◌then◌else◌,
  Option, none, some,
}
use aeron_cluster_client_cpp.Prelude.Dict.{lookup, insert, erase}
use aeron_cluster_client_cpp.Sbe.Exception.{Result, ok, throws}
use aeron_cluster_client_cpp.Text.{to_string}
use aeron_cluster_client_cpp.Commit.Wire.{topic_frame}
use aeron_cluster_client_cpp.Client.State.{Client, client_is_connected}
use aeron_cluster_client_cpp.Client.State.Sending.{Sending, is_terminated}

pub record AckInfo : Type 0 where
  pub timestamp_nanos : ℕ
  pub ack_message_id : Bytes
  pub ack_topic : Bytes
  pub correlation_id : Bytes
  pub simple_control_ack : Bool

-- `inflight_`, the times of the messages by their identifiers, in front of the client.
pub record Outer : Type 0 where
  pub inner : Client
  pub inflight : List (Bytes × ℕ)

-- How publish_topic ends.
pub data TopicEnding : Type 0 where
  topic_uuid : Bytes → TopicEnding
  topic_driver_terminated topic_not_connected topic_frame_failed : TopicEnding

abbrev if_new : Option ℕ → Outer → Outer → Outer
if_new none x y = x
if_new (some ts) x y = y

-- `emplace`: an entry that is there stays.
unfoldable pub remember_outgoing : Bytes → ℕ → Outer → Outer
unfolding lookup insert
remember_outgoing uuid ts_nanos o =
    if_new (lookup uuid o.inflight) (record o { inflight = insert uuid ts_nanos o.inflight }) o

-- The bytes are not used. `none` is an exception.
unfoldable pub offer_ingress : Sending → Bytes → Outer → Option Bool
unfolding client_is_connected
offer_ingress env bytes o =
    if is_terminated o.inner
    then none
    else some (client_is_connected env.session_up env.egress_up o.inner)

-- `hdrs`
abbrev pub hdrs_of : Bytes → Bytes
hdrs_of headers_json = if is_empty headers_json then str "{}" else headers_json

-- The vector has 8 + 8 bytes and the lengths of the strings, and 128 more.
abbrev pub room_for : Bytes → Bytes → Bytes → Bytes → Bytes → ℕ
room_for topic message_type uuid payload hdrs =
    length topic + length message_type + length uuid + length payload + length hdrs + 120

-- What publish_topic does with the answer of offer_ingress.
abbrev pub after_offer : Option Bool → Bytes → ℕ → Outer → Outer × TopicEnding
after_offer none uuid ts o = (o, topic_driver_terminated)
after_offer (some true) uuid ts o = (remember_outgoing uuid ts o, topic_uuid uuid)
after_offer (some false) uuid ts o = (o, topic_uuid uuid)

abbrev pub offered : Sending → Result Bytes → Bytes → ℕ → Outer → Outer × TopicEnding
offered env (throws e) uuid ts o = (o, topic_frame_failed)
offered env (ok frame) uuid ts o = after_offer (offer_ingress env frame o) uuid ts o

-- `env.now` is the clock's reading for the identifier, and `env.later` the one for the message;
-- `session_up` and `egress_up` are the same in both checks of the connection.
unfoldable pub publish_topic : Sending → Bytes → Bytes → Bytes → Bytes → Outer → Outer × TopicEnding
unfolding client_is_connected topic_frame offer_ingress remember_outgoing
publish_topic env topic message_type json_payload headers_json o =
    let uuid = str "pub_" ++ to_string env.now in
    let hdrs = hdrs_of headers_json in
    let frame =
      topic_frame (room_for topic message_type uuid json_payload hdrs) env.later topic message_type
        uuid json_payload hdrs in
    let sent = offered env frame uuid env.later o in
    if is_terminated o.inner
    then (o, topic_driver_terminated)
    else if client_is_connected env.session_up env.egress_up o.inner
    then sent
    else (o, topic_not_connected)

-- The part of on_ack_default that changes the state.
unfoldable pub on_ack_default : AckInfo → Outer → Outer
unfolding erase
on_ack_default ack o =
    if is_empty ack.ack_message_id
    then o
    else record o { inflight = erase ack.ack_message_id o.inflight }
