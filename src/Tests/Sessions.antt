-- ===== src/Tests/Sessions.antt =====
-- The theorems on the session manager at concrete sessions.
use aeron_cluster_client_cpp.Prelude.{
  arith, ◌<◌, ℕ, zero, suc, ◌≡◌, refl, Bytes, List, [], ◌∷◌, ◌++◌, true, false, Option, none, str,
}
use aeron_cluster_client_cpp.Prelude.Int.{ℤ, pos, negsuc, minus_one, to_u64, eq_ℤ}
use aeron_cluster_client_cpp.Encoder.{encode_session_close_request}
use aeron_cluster_client_cpp.Parser.Dispatch.{session_header}
use aeron_cluster_client_cpp.Parser.Outcome.{ParseResult, empty_result}
use aeron_cluster_client_cpp.Session.State.{Config, Session, make_session}
use aeron_cluster_client_cpp.Session.Events.{handle_session_event, handle_session_events}
use aeron_cluster_client_cpp.Session.Send.{
  Answer, status, Link, is_connected, effective_publish_retry_attempts, send_raw_message,
  send_combined_message,
}
use aeron_cluster_client_cpp.Session.Close.{disconnect}
use aeron_cluster_client_cpp.Session.Endpoint.{split_at}
use aeron_cluster_client_cpp.Session.Connect.{
  Try, connected_result, failed_result, mem, Progress, connect, connect_loop,
}
use aeron_cluster_client_cpp.Session.Sync.{IsSynced}
use aeron_cluster_client_cpp.Session.History.{
  Reach, constructed, has_connected, Reach-IsSynced, connect-connected,
}
use aeron_cluster_client_cpp.Session.Sent.{
  Delivers, send_raw_message-Delivers, send_combined_message-session_header,
}
use aeron_cluster_client_cpp.Session.Ending.{AtMostOnce, disconnect-closed}
use aeron_cluster_client_cpp.Session.Retry.{Transient, is_back_pressured, send_raw_message-succeeds}
use aeron_cluster_client_cpp.Session.Stuck.{connect_loop-stuck}
use aeron_cluster_client_cpp.Session.Publish.{create_topic_message, publish_message}
use aeron_cluster_client_cpp.Session.Publish.Delivery.{
  create_topic_message-encode_topic_message, publish_message-received,
}
use aeron_cluster_client_cpp.Encoder.{encode_topic_message}
use aeron_cluster_client_cpp.Parser.{parse_message}
use aeron_cluster_client_cpp.Parser.Messages.{of_short_message}
use aeron_cluster_client_cpp.Sbe.TopicMessage.{
  compute_length, wrap_and_apply_header, put_string, set_timestamp,
}
use aeron_cluster_client_cpp.Tests.Messages.{counting_lib}

abbrev pub one_member : Config
one_member = record {
  cluster_endpoints = (97 ∷ 58 ∷ 57 ∷ []) ∷ [];
  max_retries = pos 1;
  publish_max_retry_attempts = pos 3;
  publish_retry_idle_base = pos 500;
  publish_retry_idle_max = pos 5000;
  publish_rate_limit_delay = pos 0;
  egress_stream_id = pos 102;
  response_channel = 97 ∷ [];
  protocol_semantic_version = pos 1;
}

-- The session event that accepts the session, with id 7, leader 0 and term 3.
abbrev accepting : ParseResult
accepting = record empty_result {
  template_id = 2;
  schema_id = 111;
  event_code = pos 0;
  correlation_id = pos 7;
  leadership_term_id = pos 3;
  leader_member_id = pos 0;
}

-- Back pressure once, then success.
abbrev after_one_retry : ℕ → Answer
after_one_retry zero = status (negsuc 1)
after_one_retry (suc n) = status (pos 64)

abbrev pub good_link : Link
good_link = record { up = true; offers = after_one_retry }

abbrev good_try : Try
good_try = record {
  add_throws = false;
  found = true;
  publication_up = true;
  offers = after_one_retry;
  while_sending = [];
  rounds = [] ∷ (accepting ∷ []) ∷ [];
  last_events = [];
}

abbrev no_number : Bytes → Option ℤ
no_number s = none

abbrev no_events : ℕ → List ParseResult
no_events n = []

abbrev fresh : Session
fresh = make_session (pos 5) true

-- The session after a `connect` to the one member.
abbrev pub joined : Session
joined = (connect no_number one_member (λ n. good_try) no_events fresh).1.session

pub joined-Reach : Reach joined
joined-Reach =
    has_connected no_number one_member (λ n. good_try) no_events (constructed (pos 5) true)

Reach-IsSynced_example : IsSynced joined
Reach-IsSynced_example = Reach-IsSynced joined joined-Reach

connect_succeeds : (connect no_number one_member (λ n. good_try) no_events fresh).0.success ≡ true
unfolding connect make_session split_at handle_session_events handle_session_event
connect_succeeds = refl

connect-connected_example :
    ((connect no_number one_member (λ n. good_try) no_events fresh).1.session.connected ≡ true)
    × ((connect no_number one_member (λ n. good_try) no_events fresh).0
        ≡ connected_result (connect no_number one_member (λ n. good_try) no_events fresh).1.session)
connect-connected_example =
    connect-connected no_number one_member (λ n. good_try) no_events fresh
      (constructed (pos 5) true) connect_succeeds

send_raw_message-Delivers_example :
    Delivers (65 ∷ []) joined (send_raw_message one_member good_link (65 ∷ []) joined)
send_raw_message-Delivers_example = send_raw_message-Delivers one_member good_link (65 ∷ []) joined

combined_sent : (send_combined_message one_member true good_link (65 ∷ []) joined).1 ≡ true
unfolding send_combined_message connect make_session split_at handle_session_events
    handle_session_event effective_publish_retry_attempts
combined_sent = refl

send_combined_message-session_header_example :
    (send_combined_message one_member true good_link (65 ∷ []) joined).0.taken
    ≡ (session_header (to_u64 joined.leadership_term_id) (to_u64 joined.session_id) 0 ++ (65 ∷ []))
      ∷ joined.taken
send_combined_message-session_header_example =
    send_combined_message-session_header one_member true good_link (65 ∷ []) joined joined-Reach
      combined_sent

disconnect-closed_example :
    ((disconnect one_member true (λ n. good_link) joined).connected ≡ false)
    × ((disconnect one_member true (λ n. good_link) joined).ingress_publication ≡ false)
    × ((disconnect one_member true (λ n. good_link) joined).session_id ≡ minus_one)
    × AtMostOnce
        (encode_session_close_request joined.leadership_term_id joined.session_id)
        joined
        (disconnect one_member true (λ n. good_link) joined)
disconnect-closed_example = disconnect-closed one_member true (λ n. good_link) joined

-- The only member has been tried, and it redirects to itself.
abbrev stuck : Progress
stuck = record {
  session = record fresh { redirected_to_member_id = pos 0 };
  tried_members = pos 0 ∷ [];
  tries = 1;
}

stuck_tried : mem (pos 0) (pos 0 ∷ []) ≡ true
unfolding mem
stuck_tried = refl

connect_loop-stuck_example :
    connect_loop no_number one_member (λ n. good_try) 9 1 no_events stuck ≡ (failed_result, stuck)
connect_loop-stuck_example =
    connect_loop-stuck no_number one_member (λ n. good_try) 9 1 0 no_events stuck refl stuck_tried
      (λ k. refl)

is_connected-joined : is_connected true joined ≡ true
unfolding is_connected connect make_session split_at handle_session_events handle_session_event
is_connected-joined = refl

three_attempts : 1 < effective_publish_retry_attempts one_member
unfolding effective_publish_retry_attempts
three_attempts = omega arith

first_answer : (k : ℕ) → k < 1 → Transient (after_one_retry k)
first_answer zero h = is_back_pressured refl
first_answer (suc k) h = absurd (omega (arith, h))

send_raw_message-succeeds_example :
    (send_raw_message one_member good_link (65 ∷ []) joined).1 ≡ true
send_raw_message-succeeds_example =
    send_raw_message-succeeds one_member good_link 1 (pos 64) (65 ∷ []) joined is_connected-joined
      three_attempts refl refl first_answer

nine_is_set : eq_ℤ (pos 9) (pos 0) ≡ false
nine_is_set = refl

create_topic_message-encode_topic_message_example :
    create_topic_message (pos 9) (str "orders") (str "CREATE") (str "m1") (str "{}") []
    ≡ encode_topic_message (pos 4) (str "orders") (str "CREATE") (str "m1") (str "{}") [] (pos 9)
create_topic_message-encode_topic_message_example =
    create_topic_message-encode_topic_message (pos 9) (pos 4) (str "orders") (str "CREATE")
      (str "m1") (str "{}") [] nine_is_set

published :
    (publish_message one_member true true good_link
      (pos 9)
      (str "orders")
      (str "CREATE")
      (str "m1")
      (str "{}")
      []
      joined).1
    ≡ true
unfolding publish_message connect make_session split_at handle_session_events handle_session_event
    compute_length wrap_and_apply_header put_string set_timestamp effective_publish_retry_attempts
published = refl

publish_message-received_example :
    (message : Bytes) × ((publish_message one_member true true good_link
        (pos 9)
        (str "orders")
        (str "CREATE")
        (str "m1")
        (str "{}")
        []
        joined).0.taken
      ≡ message ∷ joined.taken)
    × (parse_message counting_lib message
        ≡ of_short_message counting_lib (to_u64 (pos 9)) (str "CREATE") (str "m1") (str "{}") [])
publish_message-received_example =
    publish_message-received counting_lib one_member true true good_link (pos 9) (str "orders")
      (str "CREATE") (str "m1") (str "{}") [] joined joined-Reach
      (omega arith, omega arith, omega arith, omega arith, omega arith) published
