-- ===== src/Client/State/Sending.antt =====
-- send_commit_request, send_commit_offset, commit_message, send_subscription_request,
-- send_unsubscription_request, resume_from_last_commit and resume_subscribed_topics of
-- ClusterClient::Impl.
use aeron_cluster_client_cpp.Prelude.{
  ℕ, ◌+◌, Bytes, List, [], ◌∷◌, Bool, true, false, not, is_empty, str, if◌then◌else◌, Option, none,
  some,
}
use aeron_cluster_client_cpp.Prelude.Int.{ℤ}
use aeron_cluster_client_cpp.Prelude.Dict.{lookup, insert, erase, add, discard}
use aeron_cluster_client_cpp.Json.{Scalar, text, null}
use aeron_cluster_client_cpp.Sbe.Exception.{Result, ok, throws}
use aeron_cluster_client_cpp.Session.State.{Session}
use aeron_cluster_client_cpp.Session.Send.{Link, send_combined_message, send_raw_message}
use aeron_cluster_client_cpp.Session.Publish.{publish_message}
use aeron_cluster_client_cpp.Commit.{CommitOffset, commit_message, get_last_commit}
use aeron_cluster_client_cpp.Commit.Wire.{build_commit_message, build_commit_offset_message}
use aeron_cluster_client_cpp.Client.Link.{throw_if_driver_terminated}
use aeron_cluster_client_cpp.Client.State.{
  Setup, Client, SubscriptionRecord, client_is_connected, with_session, track_subscription,
  untrack_subscription, non_empty_or,
}

-- What one send meets: the answers of the connection checks, the publication, the two readings of
-- the clock, the time of the message, and a new message id.
pub record Sending : Type 0 where
  pub session_up : Bool
  pub egress_up : Bool
  pub up_first : Bool
  pub up_before : Bool
  pub link : Link
  pub now : ℕ
  pub later : ℕ
  pub time : ℤ
  pub message_id : Bytes

abbrev pub is_terminated : Client → Bool
is_terminated c = elim (throw_if_driver_terminated c.link) [ none ↦ false | some message ↦ true ]

-- The session manager has sent, or not.
abbrev pub sent_by : Client → Session × Bool → Client × Bool
sent_by c (s, success) = (with_session s c, success)

abbrev answered : Client × Bool → Client × Option Bool
answered (c, success) = (c, some success)

-- The frame is sent; an exception while it is built is passed on.
abbrev pub with_frame : (Bytes → Client × Bool) → Client → Result Bytes → Client × Option Bool
with_frame send c (ok frame) = answered (send frame)
with_frame send c (throws e) = (c, none)

-- An answer of `none` is an exception.
module _ (write_string : List (Bytes × Scalar) → Bytes) (setup : Setup) where
  unfoldable pub send_commit_request : Sending → Bytes → Client → Client × Option Bool
  unfolding client_is_connected throw_if_driver_terminated build_commit_message send_raw_message
  send_commit_request env topic c =
      let frame = build_commit_message env.now env.later topic setup.client_id in
      let send = λ (f : Bytes). sent_by c (send_raw_message setup.config env.link f c.session) in
      if is_terminated c
      then (c, none)
      else if client_is_connected env.session_up env.egress_up c
      then with_frame send c frame
      else (c, some false)

  unfoldable pub send_commit_offset : Sending → CommitOffset → Client → Client × Option Bool
  unfolding client_is_connected throw_if_driver_terminated build_commit_offset_message
      send_combined_message
  send_commit_offset env offset c =
      let frame =
        build_commit_offset_message write_string env.now env.later offset.message_identifier
          offset in
      let send = λ (f : Bytes).
        sent_by c (send_combined_message setup.config env.up_before env.link f c.session) in
      if is_terminated c
      then (c, none)
      else if client_is_connected env.session_up env.egress_up c
      then with_frame send c frame
      else (c, some false)

  -- `commit_message` of the client.
  unfoldable pub client_commit_message : Sending → CommitOffset → Client → Client × Option Bool
  unfolding send_commit_offset commit_message
  client_commit_message env offset c =
      send_commit_offset env offset (record c { commits = commit_message offset c.commits })

  -- The headers of both requests.
  abbrev request_headers : Bytes → Bytes
  request_headers message_id =
      write_string
        ((str "messageId", text message_id) ∷ (str "topic", text (str "_subscriptions")) ∷ [])

  -- The client after a request that was published.
  abbrev subscribed : Bytes → Bytes → Bytes → Bytes → Client → Client
  subscribed topic message_identifier resume_strategy instance_identifier c =
      track_subscription setup topic message_identifier resume_strategy instance_identifier
        (record c {
          subscribed_topics = add topic c.subscribed_topics;
          identifiers = insert topic message_identifier c.identifiers;
        })

  abbrev finish_request : (Client → Client) → Bytes → Client × Bool → Client × Option Bytes
  finish_request change message_id (c, true) = (change c, some message_id)
  finish_request change message_id (c, false) = (c, none)

  unfoldable pub send_subscription_request :
      Sending → Bytes → Bytes → Bytes → Bytes → Client → Client × Option Bytes
  unfolding client_is_connected throw_if_driver_terminated publish_message track_subscription add
      insert
  send_subscription_request env topic message_identifier resume_strategy instance_identifier c =
      let instance_id = non_empty_or instance_identifier setup.instance_identifier in
      let payload = write_string (
        (str "topic", text topic)
        ∷ (str "action", text (str "SUBSCRIBE"))
        ∷ (str "messageIdentifier", text message_identifier)
        ∷ (str "resumeStrategy", text resume_strategy)
        ∷ (str "instanceIdentifier", text instance_id)
        ∷ []) in
      let published = sent_by c (
        publish_message setup.config env.up_first env.up_before env.link env.time
          (str "_subscriptions") (str "SUBSCRIBE") env.message_id payload
          (request_headers env.message_id) c.session) in
      if is_terminated c
      then (c, none)
      else if client_is_connected env.session_up env.egress_up c
      then finish_request (subscribed topic message_identifier resume_strategy instance_id)
          env.message_id published
      else (c, none)

  -- The member that is null where the identifier is empty.
  abbrev identifier_member : Bytes → Scalar
  identifier_member message_identifier =
      if is_empty message_identifier then null else text message_identifier

  -- The client after a request that was published: the topic's identifier is forgotten with it.
  abbrev unsubscribed : Bytes → Bytes → Client → Client
  unsubscribed topic message_identifier c =
      untrack_subscription topic message_identifier (record c {
        subscribed_topics = discard topic c.subscribed_topics;
        identifiers = erase topic c.identifiers;
      })

  unfoldable pub send_unsubscription_request :
      Sending → Bytes → Bytes → Client → Client × Option Bytes
  unfolding client_is_connected throw_if_driver_terminated publish_message untrack_subscription
      discard erase
  send_unsubscription_request env topic message_identifier c =
      let payload = write_string (
        (str "topic", text topic)
        ∷ (str "action", text (str "UNSUBSCRIBE"))
        ∷ (str "messageIdentifier", identifier_member message_identifier)
        ∷ []) in
      let published = sent_by c (
        publish_message setup.config env.up_first env.up_before env.link env.time
          (str "_subscriptions") (str "UNSUBSCRIBE") env.message_id payload
          (request_headers env.message_id) c.session) in
      if is_terminated c
      then (c, none)
      else if client_is_connected env.session_up env.egress_up c
      then finish_request (unsubscribed topic message_identifier) env.message_id published
      else (c, none)

  -- `send_subscription_request(...) != ""`
  abbrev has_sent : Client × Option Bytes → Client × Option Bool
  has_sent (c, none) = (c, none)
  has_sent (c, some message_id) = (c, some (not (is_empty message_id)))

  abbrev resume_from : Sending → Bytes → Bytes → Option CommitOffset → Client → Client × Option Bool
  resume_from env topic message_identifier none c =
      has_sent (send_subscription_request env topic message_identifier (str "LATEST") [] c)
  resume_from env topic message_identifier (some offset) c = send_commit_offset env offset c

  -- The connection checks of the call come first, then those of what it calls.
  unfoldable pub resume_from_last_commit :
      Bool → Bool → Sending → Bytes → Bytes → Client → Client × Option Bool
  unfolding client_is_connected throw_if_driver_terminated get_last_commit send_subscription_request
      send_commit_offset
  resume_from_last_commit session_up egress_up env topic message_identifier c =
      let resumed =
        resume_from env topic message_identifier
          (get_last_commit topic message_identifier c.commits) c in
      if is_terminated c
      then (c, none)
      else if client_is_connected session_up egress_up c
      then resumed
      else (c, some false)

  -- The subscriptions that `resume_subscribed_topics` goes through.
  abbrev pub latest : Client → Bytes → SubscriptionRecord
  latest c topic = record {
    topic = topic;
    message_identifier = elim (lookup topic c.identifiers) [ none ↦ setup.client_id | some i ↦ i ];
    resume_strategy = str "LATEST";
    instance_identifier = setup.instance_identifier;
  }

  abbrev pub records_of : List (Bytes × SubscriptionRecord) → List SubscriptionRecord
  records_of [] = []
  records_of ((key, r) ∷ entries) = r ∷ records_of entries

  abbrev pub latest_all : Client → List Bytes → List SubscriptionRecord
  latest_all c [] = []
  latest_all c (topic ∷ topics) = latest c topic ∷ latest_all c topics

  abbrev pub to_resume : Client → List SubscriptionRecord
  to_resume c = elim c.tracked_subscriptions [
    | [] ↦ latest_all c c.subscribed_topics
    | e ∷ entries ↦ records_of (e ∷ entries)
  ]

  -- One subscription. The commit is sent outside of the `try`, the request inside.
  abbrev pub resume_one :
      Sending → SubscriptionRecord → Option CommitOffset → Client → Client × Bool
  resume_one env r none c = (
    (send_subscription_request env r.topic r.message_identifier r.resume_strategy
        r.instance_identifier c).0,
    true,
  )
  resume_one env r (some offset) c =
      let (c1, answer) = send_commit_offset env offset c in
      (c1, elim answer [ none ↦ false | some success ↦ true ])

  unfoldable pub resume_all : (ℕ → Sending) → ℕ → List SubscriptionRecord → Client → Client × Bool
  unfolding send_commit_offset send_subscription_request get_last_commit
  resume_all envs i [] c = (c, true)
  resume_all envs i (r ∷ records) c =
      let (c1, goes_on) =
        resume_one (envs i) r (get_last_commit r.topic r.message_identifier c.commits) c in
      let rest = resume_all envs (i + 1) records c1 in if goes_on then rest else (c1, false)

  -- The answer is whether no exception ended it.
  unfoldable pub resume_subscribed_topics : (ℕ → Sending) → Client → Client × Bool
  unfolding resume_all lookup
  resume_subscribed_topics envs c = resume_all envs 0 (to_resume c) c
