-- ===== src/Client/State/Incoming.antt =====
-- handle_incoming_message of ClusterClient::Impl. The message callback calls nothing of the client.
use aeron_cluster_client_cpp.Prelude.{
  Bytes, List, ◌∷◌, Bool, true, ◌&&◌, not, is_empty, if◌then◌else◌, Option, none, some,
}
use aeron_cluster_client_cpp.Prelude.Int.{to_u64}
use aeron_cluster_client_cpp.Prelude.Dict.{lookup}
use aeron_cluster_client_cpp.Json.{JsonLib, Scalar}
use aeron_cluster_client_cpp.Decoder.{accepted, refused, overread}
use aeron_cluster_client_cpp.Parser.{parse_message}
use aeron_cluster_client_cpp.Parser.Outcome.{ParseResult, is_session_event}
use aeron_cluster_client_cpp.Commit.{CommitOffset}
use aeron_cluster_client_cpp.Client.Link.{call_error_callback, message_handling_error}
use aeron_cluster_client_cpp.Client.SessionEvents.{receive_session_event}
use aeron_cluster_client_cpp.Client.Topics.{extract_topic_from_message, should_skip_auto_commit}
use aeron_cluster_client_cpp.Client.Duplicates.{is_message_processed, mark_message_processed}
use aeron_cluster_client_cpp.Client.State.{Setup, Client}
use aeron_cluster_client_cpp.Client.State.Sending.{Sending, client_commit_message}

-- The message callback, if it is set; it throws where its answer is false.
abbrev pub call_message_callback :
    Option (ParseResult → Bool) → ParseResult → Client → Client × Bool
call_message_callback none result c = (c, true)
call_message_callback (some callback) result c =
    (record c { delivered = result ∷ c.delivered }, callback result)

-- The session manager handles a session event.
abbrev pub with_session_event : ParseResult → Client → Client
with_session_event result c =
    let (s, l) = receive_session_event result c.session c.link in
    if is_session_event result then record c { session = s; link = l } else c

-- The exception of a commit goes to the error callback.
abbrev pub reported : Client × Option Bool → Client
reported (c, some success) = c
reported (c, none) = record c { link = call_error_callback message_handling_error c.link }

module _ (lib : JsonLib) (write_string : List (Bytes × Scalar) → Bytes) (setup : Setup)
    (order : List Bytes → List Bytes) (callback : Option (ParseResult → Bool)) where
  unfoldable pub offset_of : ParseResult → Client → CommitOffset
  unfolding extract_topic_from_message lookup
  offset_of result c =
      let topic = extract_topic_from_message lib c.subscribed_topics result in
      record {
        topic = topic;
        message_identifier = elim (lookup topic c.identifiers) [
          | none ↦ setup.client_id
          | some i ↦ i
        ];
        message_id = result.message_id;
        timestamp_nanos = to_u64 result.timestamp;
        sequence_number = result.sequence_number;
      }

  -- A new message is marked.
  unfoldable pub mark_handled : Bool → ParseResult → Client → Client
  unfolding mark_message_processed
  mark_handled already_processed result c =
      if already_processed
      then c
      else record c { processed = mark_message_processed order result.message_id c.processed }

  unfoldable pub commit_handled : Sending → ParseResult → Client → Client
  unfolding offset_of client_commit_message
  commit_handled env result c =
      let committed =
        reported (client_commit_message write_string setup env (offset_of result c) c) in
      if setup.enable_auto_commit then committed else c

  -- What is done for a message that has been handled and is not skipped.
  unfoldable pub auto_commit : Sending → Bool → ParseResult → Client → Client
  unfolding mark_handled commit_handled
  auto_commit env already_processed result c =
      commit_handled env result (mark_handled already_processed result c)

  -- The message callback, where the message is new, and the commit.
  unfoldable pub finish_message : Sending → Bool → Bool → Bool → ParseResult → Client → Client
  unfolding auto_commit
  finish_message env already_processed should_skip has_id result c =
      let called =
        if already_processed then (c, true) else call_message_callback callback result c in
      if called.1 && (not should_skip && has_id)
      then auto_commit env already_processed result called.0
      else called.0

  -- A message that has been parsed.
  unfoldable pub handle_result : Sending → ParseResult → Client → Client
  unfolding receive_session_event is_message_processed should_skip_auto_commit finish_message
  handle_result env result c =
      let c1 = with_session_event result c in
      let has_id = not (is_empty result.message_id) in
      let already = has_id && is_message_processed result.message_id c1.processed in
      let skip = should_skip_auto_commit lib c1.subscribed_topics result in
      if result.success then finish_message env already skip has_id result c1 else c

  unfoldable pub handle_incoming_message : Sending → Bytes → Client → Client
  unfolding parse_message handle_result
  handle_incoming_message env memory c = elim (parse_message lib memory) [
    | accepted result ↦ handle_result env result c
    | refused ↦ c
    | overread ↦ c
  ]
