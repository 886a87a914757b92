-- ===== src/Client/Publishing.antt =====
-- publish_order, publish_order_to_topic, publish_message and publish_message_to_topic of
-- ClusterClient::Impl (src/cluster_client.cpp). The asynchronous forms run the same functions.
pub mod Steps
pub mod Published
use aeron_cluster_client_cpp.Prelude.{
  ℕ, ◌+◌, Bytes, List, [], ◌∷◌, ◌++◌, Bool, true, false, not, ◌||◌, bytes_eq, is_empty, str,
  if◌then◌else◌,
}
use aeron_cluster_client_cpp.Prelude.Int.{ℤ, pos, eq_ℤ}
use aeron_cluster_client_cpp.Json.{Scalar, text}
use aeron_cluster_client_cpp.Session.State.{Session, Description, no_description}
use aeron_cluster_client_cpp.Session.Publish.{publish_message}
use aeron_cluster_client_cpp.Orders.{Doubles, Order, validate}
use aeron_cluster_client_cpp.Orders.Exchange.{OrderJson, to_json}
use aeron_cluster_client_cpp.Client.State.{Setup, Client, client_is_connected, with_session}
use aeron_cluster_client_cpp.Client.State.Sending.{Sending, is_terminated, sent_by}

-- The client and its count `stats_.messages_sent`.
pub record Publisher : Type 0 where
  pub client : Client
  pub stats_messages_sent : ℕ

-- What build_publish_failure_message puts behind the base message.
pub data Detail : Type 0 where
  no_detail : Detail
  described : Description → Detail
  aeron_code : ℤ → Detail

-- How a call ends: with the identifier of the message, or with an exception.
pub data Ending : Type 0 where
  returned : Bytes → Ending
  driver_terminated : Ending
  not_connected_exception : Ending
  invalid_message_exception : Bytes → Ending
  cluster_client_exception : Bytes → Detail → Ending

abbrev has_detail : Description → Bool
has_detail no_description = false
has_detail _ = true

unfoldable pub build_publish_failure_message : Session → Detail
build_publish_failure_message s =
    if has_detail s.last_offer_error_message
    then described s.last_offer_error_message
    else if not (eq_ℤ s.last_offer_error_code (pos 0))
    then aeron_code s.last_offer_error_code
    else no_detail

-- What follows the call of the session manager: the count and the identifier, or the exception.
abbrev pub conclude : ℕ → Bytes → Bytes → Client × Bool → Publisher × Ending
conclude sent id base (c, true) =
    (record { client = c; stats_messages_sent = sent + 1 }, returned id)
conclude sent id base (c, false) = (
  record { client = c; stats_messages_sent = sent },
  cluster_client_exception base (build_publish_failure_message c.session),
)

unfoldable pub order_message_type : {D : Type 0} → Order D → Bytes
order_message_type o =
    if bytes_eq o.status (str "UPDATED") || bytes_eq o.status (str "CANCELLED")
    then str "UPDATE_ORDER"
    else str "CREATE_ORDER"

-- The headers that the order functions write.
unfoldable pub order_headers :
    {D : Type 0} → (List (Bytes × Scalar) → Bytes) → Bytes → Order D → Bytes
unfolding order_message_type
order_headers write_string message_id o = write_string (
    (str "messageId", text message_id)
    ∷ (str "messageType", text (order_message_type o))
    ∷ (str "orderId", text o.id)
    ∷ [])

-- `ensure_connected_or_throw`, in front of the rest.
unfoldable pub ensure_connected : Sending → Publisher → Publisher × Ending → Publisher × Ending
unfolding client_is_connected
ensure_connected env p rest =
    if is_terminated p.client
    then (p, driver_terminated)
    else if client_is_connected env.session_up env.egress_up p.client
    then rest
    else (p, not_connected_exception)

-- The part from the validation on, for an order with these errors.
abbrev pub unless_errors : List Bytes → Publisher → Publisher × Ending → Publisher × Ending
unless_errors [] p rest = rest
unless_errors (e ∷ errors) p rest =
    (p, invalid_message_exception (str "Order validation failed: " ++ e))

module _ (setup : Setup) where
  unfoldable pub send_published :
      Sending → Bytes → Bytes → Bytes → Bytes → Bytes → Publisher → Publisher × Ending
  unfolding publish_message
  send_published env base topic message_type payload headers p =
      conclude p.stats_messages_sent env.message_id base (
        sent_by p.client (
          publish_message setup.config env.up_first env.up_before env.link env.time topic
            message_type env.message_id payload headers p.client.session))

  unfoldable pub client_publish_message :
      Bytes → Sending → Bytes → Bytes → Bytes → Publisher → Publisher × Ending
  unfolding ensure_connected send_published
  client_publish_message default_topic env message_type payload headers p = ensure_connected env p (
      send_published env (str "Failed to publish message") default_topic message_type payload
        headers p)

  unfoldable pub publish_message_to_topic :
      Sending → Bytes → Bytes → Bytes → Bytes → Publisher → Publisher × Ending
  unfolding ensure_connected send_published
  publish_message_to_topic env message_type payload headers topic p =
      let sent =
        send_published env (str "Failed to publish message") topic message_type payload headers p in
      ensure_connected env p
        (if is_empty topic then (p, invalid_message_exception (str "Topic is empty")) else sent)

  module _ (write_string : List (Bytes × Scalar) → Bytes) (doubles : Doubles)
      (lib : OrderJson doubles.Double) where
    unfoldable pub send_order :
        Sending → Order doubles.Double → Bytes → Publisher → Publisher × Ending
    unfolding validate order_message_type order_headers to_json send_published
    send_order env o topic p = unless_errors (validate doubles o) p (
        send_published env (str "Failed to publish order message") topic (order_message_type o)
          (to_json doubles lib o) (order_headers write_string env.message_id o) p)

    unfoldable pub publish_order :
        Bytes → Sending → Order doubles.Double → Publisher → Publisher × Ending
    unfolding ensure_connected send_order
    publish_order default_topic env o p = ensure_connected env p (send_order env o default_topic p)

    unfoldable pub publish_order_to_topic :
        Sending → Order doubles.Double → Bytes → Publisher → Publisher × Ending
    unfolding ensure_connected send_order
    publish_order_to_topic env o topic p =
        let sent = send_order env o topic p in
        ensure_connected env p
          (if is_empty topic then (p, invalid_message_exception (str "Topic is empty")) else sent)
