-- ===== src/Client/Topics.antt =====
-- The topic of a message and what is not committed: extract_topic_from_message and
-- should_skip_auto_commit of ClusterClient::Impl.
use aeron_cluster_client_cpp.Prelude.{
  Bytes, List, [], ◌∷◌, Bool, true, false, ◌||◌, ◌&&◌, Option, none, some, str, bytes_eq, is_empty,
  not, if◌then◌else◌,
}
use aeron_cluster_client_cpp.Json.{JsonLib}
use aeron_cluster_client_cpp.Text.{starts_with, contains}
use aeron_cluster_client_cpp.Parser.Outcome.{ParseResult}

-- An answer, or the next source where there is none.
abbrev pub or_else : Option Bytes → Bytes → Bytes
or_else none other = other
or_else (some answer) other = answer

-- The first topic of the set, or "default".
abbrev pub fallback_topic : List Bytes → Bytes
fallback_topic [] = str "default"
fallback_topic (topic ∷ topics) = topic

module _ (lib : JsonLib) where
  -- `root[key].asString()`; `none` is an exception.
  abbrev text_at : lib.Value → Bytes → Option Bytes
  text_at root key = elim (lib.member root key) [ none ↦ none | some v ↦ lib.to_text v ]

  abbrev is_true : Option Bool → Bool
  is_true none = false
  is_true (some b) = b

  -- The topic that an object names; an exception is none.
  abbrev topic_of : Bytes → Option lib.Value → Option Bytes
  topic_of key none = none
  topic_of key (some root) = if is_true (lib.is_member root key) then text_at root key else none

  unfoldable pub topic_in_headers : Bytes → Option Bytes
  topic_in_headers headers =
      if is_empty headers then none else topic_of (str "topic") (lib.parse_from_stream headers)

  -- `root["message"]["topic"]`, where both are there.
  abbrev nested_topic : lib.Value → Option Bytes
  nested_topic root =
      if is_true (lib.is_member root (str "message"))
      then topic_of (str "topic") (lib.member root (str "message"))
      else none

  -- The nested topic is looked at where the object has no topic; an exception ends the search.
  abbrev payload_topic : Option lib.Value → Option Bytes
  payload_topic none = none
  payload_topic (some root) = elim (lib.is_member root (str "topic")) [
    | none ↦ none
    | some b ↦ if b then text_at root (str "topic") else nested_topic root
  ]

  unfoldable pub topic_in_payload : Bytes → Option Bytes
  topic_in_payload payload =
      if is_empty payload then none else payload_topic (lib.parse_from_stream payload)

  unfoldable pub extract_topic_from_message : List Bytes → ParseResult → Bytes
  unfolding topic_in_headers topic_in_payload
  extract_topic_from_message subscribed_topics result =
      or_else (topic_in_headers result.headers)
        (or_else (topic_in_payload result.payload) (fallback_topic subscribed_topics))

  unfoldable pub should_skip_auto_commit : List Bytes → ParseResult → Bool
  unfolding extract_topic_from_message bytes_eq contains
  should_skip_auto_commit subscribed_topics result =
      let is_type = bytes_eq result.message_type in
      let topic = extract_topic_from_message subscribed_topics result in
      if is_type (str "acknowledgment")
        || is_type (str "acknowledgment_legacy")
        || is_type (str "Acknowledgment")
        || is_type (str "Acknowledgment_legacy")
        || is_type (str "COMMIT_RESPONSE")
        || is_type (str "SUBSCRIBE")
      then true
      else if not (is_empty result.message_id) && starts_with result.message_id (str "ack_")
      then true
      else if bytes_eq topic (str "_ack") || bytes_eq topic (str "_subscriptions")
      then true
      else if bytes_eq topic (str "_control")
      then not (is_type (str "REPLAY_COMPLETE") || contains result.payload (str "REPLAY_COMPLETE"))
      else is_empty result.payload
