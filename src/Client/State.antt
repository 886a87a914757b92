-- ===== src/Client/State.antt =====
-- The members of ClusterClient::Impl together, its subscriptions, and the sending of commits and
-- subscription requests.
pub mod Sending
pub mod Incoming
pub mod Resuming
pub mod Spares
pub mod Committed
pub mod Repeats
pub mod CommitsSent
use aeron_cluster_client_cpp.Prelude.{
  ℕ, Bytes, List, [], ◌∷◌, ◌++◌, Bool, ◌&&◌, ◌||◌, bytes_eq, is_empty, not, str, map, if◌then◌else◌,
  Option, none, some,
}
use aeron_cluster_client_cpp.Prelude.Dict.{lookup, insert, erase, add, discard}
use aeron_cluster_client_cpp.Parser.Outcome.{ParseResult}
use aeron_cluster_client_cpp.Session.State.{Config, Session}
use aeron_cluster_client_cpp.Session.Send.{is_connected}
use aeron_cluster_client_cpp.Commit.{Commits}
use aeron_cluster_client_cpp.Client.Link.{ClientLink, connected, same_state}
use aeron_cluster_client_cpp.Client.Link.Connecting.{state_changed, call_back_all}
use aeron_cluster_client_cpp.Client.SessionEvents.{new_calls}

-- The settings that the client reads.
pub record Setup : Type 0 where
  pub config : Config
  pub client_id : Bytes
  pub instance_identifier : Bytes
  pub enable_auto_commit : Bool

pub record SubscriptionRecord : Type 0 where
  pub topic : Bytes
  pub message_identifier : Bytes
  pub resume_strategy : Bytes
  pub instance_identifier : Bytes

pub record Client : Type 0 where
  pub link : ClientLink
  pub session : Session
  pub commits : Commits
  -- `processed_messages_`
  pub processed : List Bytes
  -- `subscription_message_identifiers_`
  pub identifiers : List (Bytes × Bytes)
  pub subscribed_topics : List Bytes
  pub tracked_subscriptions : List (Bytes × SubscriptionRecord)
  -- The messages that the message callback was called with, the latest first.
  pub delivered : List ParseResult

unfoldable pub make_subscription_key : Bytes → Bytes → Bytes → Bytes
make_subscription_key topic message_identifier instance_identifier =
    topic ++ (str "|" ++ (message_identifier ++ (str "|" ++ instance_identifier)))

-- `text.empty() ? other : text`
abbrev pub non_empty_or : Bytes → Bytes → Bytes
non_empty_or text other = if is_empty text then other else text

unfoldable pub track_subscription : Setup → Bytes → Bytes → Bytes → Bytes → Client → Client
unfolding make_subscription_key insert
track_subscription setup topic message_identifier resume_strategy instance_identifier c =
    let r : SubscriptionRecord = record {
      topic = topic;
      message_identifier = non_empty_or message_identifier setup.client_id;
      resume_strategy = resume_strategy;
      instance_identifier = non_empty_or instance_identifier setup.instance_identifier;
    } in
    record c {
      tracked_subscriptions =
          insert (make_subscription_key r.topic r.message_identifier r.instance_identifier) r
            c.tracked_subscriptions;
    }

-- The record is one that `untrack_subscription` erases.
abbrev pub is_untracked : Bytes → Bytes → SubscriptionRecord → Bool
is_untracked topic message_identifier r =
    bytes_eq r.topic topic
    && (is_empty message_identifier || bytes_eq r.message_identifier message_identifier)

unfoldable pub untracked :
    Bytes → Bytes → List (Bytes × SubscriptionRecord) → List (Bytes × SubscriptionRecord)
unfolding bytes_eq
untracked topic message_identifier [] = []
untracked topic message_identifier ((key, r) ∷ entries) =
    let rest = untracked topic message_identifier entries in
    if is_untracked topic message_identifier r then rest else (key, r) ∷ rest

unfoldable pub untrack_subscription : Bytes → Bytes → Client → Client
unfolding untracked
untrack_subscription topic message_identifier c = record c {
  tracked_subscriptions = untracked topic message_identifier c.tracked_subscriptions;
}

-- `session_up` and `egress_up` are the answers of the ingress publication and of the egress
-- subscription; the second is true where there is no subscription yet.
unfoldable pub client_is_connected : Bool → Bool → Client → Bool
unfolding is_connected
client_is_connected session_up egress_up c =
    same_state c.link.connection_state connected && is_connected session_up c.session && egress_up

-- The session manager's new state, and its calls of the connection state callback, at most one.
abbrev pub with_session : Session → Client → Client
with_session s c = record c {
  session = s;
  link = call_back_all (map state_changed (new_calls c.session.state_calls s.state_calls)) c.link;
}
