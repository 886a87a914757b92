-- ===== src/Client/Publishing/Published.antt =====
-- What the publishing calls of the client do.
use aeron_cluster_client_cpp.Prelude.{
  ◌+◌, ◌≡◌, sym, ap, subst, Option, none, some, is_empty, ◌∙◌, Bytes, List, [], true, false, str,
}
use aeron_cluster_client_cpp.Json.{JsonLib, Scalar}
use aeron_cluster_client_cpp.Encoder.Cut.{Fit}
use aeron_cluster_client_cpp.Session.History.{Reach}
use aeron_cluster_client_cpp.Session.Publish.{publish_message}
use aeron_cluster_client_cpp.Orders.{Doubles, Order, validate}
use aeron_cluster_client_cpp.Orders.Validity.{IsValid, validate-IsValid}
use aeron_cluster_client_cpp.Orders.Exchange.{OrderJson, to_json}
use aeron_cluster_client_cpp.Client.State.{Setup, client_is_connected}
use aeron_cluster_client_cpp.Client.State.Sending.{Sending, is_terminated}
use aeron_cluster_client_cpp.Client.Publishing.{
  Publisher, Ending, returned, ensure_connected, send_published, order_message_type, order_headers,
  send_order, publish_order, publish_order_to_topic,
}
use aeron_cluster_client_cpp.Client.Publishing.Steps.{
  has_returned, Reads, send_published-Reads, success_returns, through, stays_put, passes, refuses,
  not_empty,
}

module _ (setup : Setup) (write_string : List (Bytes × Scalar) → Bytes) (doubles : Doubles)
    (orders : OrderJson doubles.Double) (default_topic : Bytes) where
  -- The order was valid; the call has returned the new message identifier and counted one message
  -- more; and the publication has taken one, with the type that the order's status gives, that
  -- identifier and the JSON of the order, less its last eight bytes.
  pub record IsPublished (lib : JsonLib) (env : Sending) (o : Order doubles.Double) (p : Publisher)
      (x : Publisher × Ending) : Type 0 where
    pub valid : IsValid doubles o
    pub ended : x.1 ≡ returned env.message_id
    pub counted : x.0.stats_messages_sent ≡ p.stats_messages_sent + 1
    pub reads :
        Reads lib p.client.session x.0.client.session env
          (order_message_type o)
          (to_json doubles orders o)
          (order_headers write_string env.message_id o)

  -- publish_order, or publish_order_to_topic with a topic.
  abbrev pub publish_to :
      Option Bytes → Sending → Order doubles.Double → Publisher → Publisher × Ending
  publish_to none env o p = publish_order setup write_string doubles orders default_topic env o p
  publish_to (some topic) env o p =
      publish_order_to_topic setup write_string doubles orders env o topic p

  abbrev pub target : Option Bytes → Bytes
  target none = default_topic
  target (some topic) = topic

  -- A call that returns has sent the order.
  comes_through :
      (to : Option Bytes) (env : Sending) (o : Order doubles.Double) (p : Publisher)
      → has_returned (publish_to to env o p).1 ≡ true
      → publish_to to env o p ≡ send_order setup write_string doubles orders env o (target to) p
  unfolding publish_order publish_order_to_topic
  comes_through none env o p h = (through env p _ h).2
  comes_through (some topic) env o p h =
      let sent = send_order setup write_string doubles orders env o topic p in
      let same = (through env p _ h).2 in
      same
      ∙ not_empty (is_empty topic) p sent
          (sym (ap (λ (x : Publisher × Ending). has_returned x.1) same) ∙ h)

  send_order-IsPublished :
      (lib : JsonLib) (env : Sending) (o : Order doubles.Double) (topic : Bytes) (p : Publisher)
      → Reach p.client.session
      → Fit topic
          (order_message_type o)
          env.message_id
          (to_json doubles orders o)
          (order_headers write_string env.message_id o)
      → has_returned (send_order setup write_string doubles orders env o topic p).1 ≡ true
      → IsPublished lib env o p (send_order setup write_string doubles orders env o topic p)
  unfolding send_order
  send_order-IsPublished lib env o topic p r fit h =
      let kind = order_message_type o in
      let headers = order_headers write_string env.message_id o in
      let sent =
        send_published setup env (str "Failed to publish order message") topic kind
          (to_json doubles orders o) headers p in
      let (none_wrong, same) = passes (validate doubles o) p sent h in
      let h' = sym (ap (λ (x : Publisher × Ending). has_returned x.1) same) ∙ h in
      let (ended, counted, (message, took, parsed)) =
        send_published-Reads setup lib env _ topic kind _ headers p r fit h' in
      record {
        valid = (validate-IsValid doubles o).0 none_wrong;
        ended = ap (λ (x : Publisher × Ending). x.1) same ∙ ended;
        counted = ap (λ (x : Publisher × Ending). x.0.stats_messages_sent) same ∙ counted;
        reads = (
          message,
          ap (λ (x : Publisher × Ending). x.0.client.session.taken) same ∙ took,
          parsed,
        );
      }

  -- publish_order, and publish_order_to_topic with any topic, of the client, with the session manager
  -- in a state that it reaches and the five strings of at most 65534 bytes each: where the call
  -- returns, the order was valid, what it returns is the new message identifier, the count of sent
  -- messages has grown by one, and the publication has taken one message, which lacks its last eight
  -- bytes: the client's own parser reads past its end if the headers have at least eight bytes;
  -- returns the type that the order's status gives, that identifier and the JSON of the order, with
  -- empty headers, if they have six or seven; and never returns the message if they have fewer.
  pub publish_to-IsPublished :
      (lib : JsonLib) (to : Option Bytes) (env : Sending) (o : Order doubles.Double) (p : Publisher)
      → Reach p.client.session
      → Fit
          (target to)
          (order_message_type o)
          env.message_id
          (to_json doubles orders o)
          (order_headers write_string env.message_id o)
      → has_returned (publish_to to env o p).1 ≡ true
      → IsPublished lib env o p (publish_to to env o p)
  publish_to-IsPublished lib to env o p r fit h =
      let same = comes_through to env o p h in
      subst (IsPublished lib env o p) (sym same) (
        send_order-IsPublished lib env o (target to) p r fit
          (sym (ap (λ (x : Publisher × Ending). has_returned x.1) same) ∙ h))

  -- An order that is not valid is never sent: publish_order throws, and the client, its session
  -- manager with what the publication has taken, and the count of sent messages stay what they were.
  pub publish_order_refuses :
      (env : Sending) (o : Order doubles.Double) (p : Publisher)
      → ¬ IsValid doubles o
      → ((publish_order setup write_string doubles orders default_topic env o p).0 ≡ p)
        × (has_returned (publish_order setup write_string doubles orders default_topic env o p).1
            ≡ false)
  unfolding publish_order send_order
  publish_order_refuses env o p h =
      stays_put env p _
        (refuses (validate doubles o) p _ (λ e. h ((validate-IsValid doubles o).0 e)))

  -- A valid order is published when the session manager's publish_message reports success.
  pub publish_order-returns :
      (env : Sending) (o : Order doubles.Double) (p : Publisher)
      → is_terminated p.client ≡ false
      → client_is_connected env.session_up env.egress_up p.client ≡ true
      → validate doubles o ≡ []
      → (publish_message setup.config env.up_first env.up_before env.link env.time default_topic
          (order_message_type o)
          env.message_id
          (to_json doubles orders o)
          (order_headers write_string env.message_id o)
          p.client.session).1
        ≡ true
      → has_returned (publish_order setup write_string doubles orders default_topic env o p).1
        ≡ true
  unfolding publish_order send_order ensure_connected send_published
  publish_order-returns env o p runs up valid sent =
      rw (runs, up, valid)
        (success_returns p.stats_messages_sent env.message_id
          (str "Failed to publish order message") p.client _ sent)
