-- ===== src/Tests/Flows.antt =====
-- The theorems on the client's messages and commits at a concrete client.
use aeron_cluster_client_cpp.Prelude.{
  ◌≡◌, refl, Bytes, [], ◌∷◌, ◌++◌, Bool, true, some, str, bytes_eq, arith,
}
use aeron_cluster_client_cpp.Prelude.Int.{pos, to_u64}
use aeron_cluster_client_cpp.Sbe.Exception.{ok}
use aeron_cluster_client_cpp.Parser.Dispatch.{session_header}
use aeron_cluster_client_cpp.Parser.Outcome.{ParseResult, empty_result}
use aeron_cluster_client_cpp.Sbe.TopicMessage.{put_field}
use aeron_cluster_client_cpp.Text.{to_string}
use aeron_cluster_client_cpp.Session.State.{make_session}
use aeron_cluster_client_cpp.Session.Events.{handle_session_event, handle_session_events}
use aeron_cluster_client_cpp.Session.Endpoint.{split_at}
use aeron_cluster_client_cpp.Session.Connect.{connect}
use aeron_cluster_client_cpp.Session.Send.{effective_publish_retry_attempts}
use aeron_cluster_client_cpp.Commit.{get_last_commit}
use aeron_cluster_client_cpp.Commit.Wire.{build_commit_message, build_commit_offset_message}
use aeron_cluster_client_cpp.Client.Link.{
  ClientLink, connecting, connected, make_link, set_connection_state, start_polling,
}
use aeron_cluster_client_cpp.Client.Link.Connecting.{call_back_all, established}
use aeron_cluster_client_cpp.Client.Topics.{should_skip_auto_commit}
use aeron_cluster_client_cpp.Client.Duplicates.{is_message_processed}
use aeron_cluster_client_cpp.Client.State.{Setup, Client}
use aeron_cluster_client_cpp.Client.State.Sending.{
  Sending, send_commit_offset, send_commit_request, resume_subscribed_topics,
}
use aeron_cluster_client_cpp.Client.State.Incoming.{offset_of, handle_result}
use aeron_cluster_client_cpp.Client.State.Resuming.{resume_subscribed_topics_nothing}
use aeron_cluster_client_cpp.Client.State.Repeats.{IsCommittable, handle_result_twice}
use aeron_cluster_client_cpp.Client.State.CommitsSent.{
  send_commit_offset-taken, send_commit_request-taken,
}
use aeron_cluster_client_cpp.Tests.Messages.{counting_lib}
use aeron_cluster_client_cpp.Tests.Sessions.{one_member, joined, joined-Reach, good_link}
use aeron_cluster_client_cpp.Tests.Commits.{first_order, write_nothing}
use aeron_cluster_client_cpp.Tests.Clients.{good_attempt}

abbrev pub committing : Setup
committing = record {
  config = one_member;
  client_id = str "me";
  instance_identifier = str "i1";
  enable_auto_commit = true;
}

abbrev pub good_sending : Sending
good_sending = record {
  session_up = true;
  egress_up = true;
  up_first = true;
  up_before = true;
  link = good_link;
  now = 1000;
  later = 1001;
  time = pos 9;
  message_id = str "q1";
}

abbrev pub client_with : ClientLink → Client
client_with link = record {
  link = link;
  session = joined;
  commits = (str "orders:me", first_order) ∷ [];
  processed = [];
  identifiers = [];
  subscribed_topics = str "orders" ∷ [];
  tracked_subscriptions = [];
  delivered = [];
}

abbrev pub up_client : Client
up_client = client_with (record (make_link true true) { connection_state = connected })

offset_is_sent :
    (send_commit_offset write_nothing committing good_sending first_order up_client).1 ≡ some true
unfolding send_commit_offset make_link connect make_session split_at handle_session_events
    handle_session_event put_field effective_publish_retry_attempts
offset_is_sent = refl

send_commit_offset-taken_example :
    (frame : Bytes) × (build_commit_offset_message write_nothing good_sending.now good_sending.later
        first_order.message_identifier first_order
      ≡ ok frame)
    × ((send_commit_offset write_nothing committing good_sending first_order
          up_client).0.session.taken
        ≡ (session_header
              (to_u64 up_client.session.leadership_term_id)
              (to_u64 up_client.session.session_id)
              0
            ++ frame)
          ∷ up_client.session.taken)
send_commit_offset-taken_example =
    send_commit_offset-taken write_nothing committing good_sending first_order up_client
      joined-Reach offset_is_sent

request_is_sent :
    (send_commit_request write_nothing committing good_sending (str "orders") up_client).1
    ≡ some true
unfolding send_commit_request make_link connect make_session split_at handle_session_events
    handle_session_event put_field effective_publish_retry_attempts to_string
request_is_sent = refl

send_commit_request-taken_example :
    (frame : Bytes) × (build_commit_message good_sending.now good_sending.later
        (str "orders")
        committing.client_id
      ≡ ok frame)
    × ((send_commit_request write_nothing committing good_sending
          (str "orders")
          up_client).0.session.taken
        ≡ frame ∷ up_client.session.taken)
send_commit_request-taken_example =
    send_commit_request-taken write_nothing committing good_sending (str "orders") up_client
      request_is_sent

abbrev new_link : ClientLink
new_link = make_link true true

abbrev polled_link : ClientLink
polled_link = record (set_connection_state connecting new_link) {
  polling_active = true;
  polling_thread = true;
}

abbrev resuming : Client
resuming =
    client_with (established good_attempt.result (call_back_all good_attempt.callbacks polled_link))

polling_starts : start_polling (set_connection_state connecting new_link) ≡ some polled_link
unfolding start_polling make_link set_connection_state
polling_starts = refl

resume_subscribed_topics_nothing_example :
    (resume_subscribed_topics write_nothing committing (λ n. good_sending) resuming).0 ≡ resuming
resume_subscribed_topics_nothing_example =
    resume_subscribed_topics_nothing write_nothing committing (λ n. good_sending) good_attempt
      new_link polled_link resuming polling_starts refl

abbrev an_order : ParseResult
an_order = record empty_result {
  success = true;
  message_type = str "CREATE";
  message_id = str "m7";
  payload = str "{}";
}

an_order-IsCommittable : IsCommittable counting_lib an_order up_client
unfolding should_skip_auto_commit bytes_eq
an_order-IsCommittable = record { success = refl; no_event = refl; has_id = refl; kept = refl }

abbrev accepts : ParseResult → Bool
accepts result = true

handle_result_twice_example :
    let handle = handle_result counting_lib write_nothing committing (λ s. s) (some accepts) in
    let offset =
      offset_of counting_lib write_nothing committing (λ s. s) (some accepts) an_order up_client in
    let c1 = handle good_sending an_order up_client in
    (c1.delivered ≡ an_order ∷ up_client.delivered)
    × (get_last_commit offset.topic offset.message_identifier c1.commits ≡ some offset)
    × ((handle good_sending an_order c1).delivered ≡ c1.delivered)
unfolding is_message_processed
handle_result_twice_example =
    handle_result_twice counting_lib write_nothing committing (λ s. s) accepts good_sending
      good_sending an_order an_order up_client an_order-IsCommittable refl (omega arith) refl refl
      refl refl
