-- ===== src/Tests/Publishing.antt =====
-- The theorems on the publishing calls at a concrete client and order.
use aeron_cluster_client_cpp.Prelude.{
  none, ◌≡◌, refl, Bytes, [], ◌∷◌, true, false, str, bytes_eq, arith,
}
use aeron_cluster_client_cpp.Prelude.Int.{pos}
use aeron_cluster_client_cpp.Encoder.Cut.{Fit}
use aeron_cluster_client_cpp.Orders.Exchange.{to_json}
use aeron_cluster_client_cpp.Client.Publishing.{
  Publisher, order_message_type, order_headers, publish_order,
}
use aeron_cluster_client_cpp.Client.Publishing.Steps.{has_returned}
use aeron_cluster_client_cpp.Client.Publishing.Published.{
  IsPublished, publish_to, publish_to-IsPublished, publish_order-returns,
}
use aeron_cluster_client_cpp.Sbe.TopicMessage.{
  compute_length, wrap_and_apply_header, put_string, set_timestamp,
}
use aeron_cluster_client_cpp.Session.State.{make_session}
use aeron_cluster_client_cpp.Session.Events.{handle_session_event, handle_session_events}
use aeron_cluster_client_cpp.Session.Endpoint.{split_at}
use aeron_cluster_client_cpp.Session.Connect.{connect}
use aeron_cluster_client_cpp.Session.Send.{effective_publish_retry_attempts}
use aeron_cluster_client_cpp.Session.Publish.{publish_message}
use aeron_cluster_client_cpp.Orders.Factory.Made.{limit_buy, create, create-validate}
use aeron_cluster_client_cpp.Client.Link.{make_link, throw_if_driver_terminated}
use aeron_cluster_client_cpp.Client.State.{client_is_connected}
use aeron_cluster_client_cpp.Client.State.Sending.{is_terminated}
use aeron_cluster_client_cpp.Tests.Messages.{counting_lib}
use aeron_cluster_client_cpp.Tests.Sessions.{one_member, good_link, joined, joined-Reach}
use aeron_cluster_client_cpp.Tests.Commits.{write_nothing}
use aeron_cluster_client_cpp.Tests.Flows.{committing, good_sending, up_client}
use aeron_cluster_client_cpp.Tests.Orders.{whole, a_draw, write_keys, key_json, an_order}

abbrev publisher : Publisher
publisher = record { client = up_client; stats_messages_sent = 0 }

abbrev the_json : Bytes
the_json = write_keys (str "uuid" ∷ str "msg_type" ∷ str "message" ∷ [])

the_kind : order_message_type an_order ≡ str "CREATE_ORDER"
unfolding order_message_type create bytes_eq
the_kind = refl

the_json_is : to_json whole key_json an_order ≡ the_json
unfolding to_json key_json
the_json_is = refl

no_headers : order_headers write_nothing good_sending.message_id an_order ≡ []
unfolding order_headers
no_headers = refl

an_order_fits :
    Fit
      (str "orders")
      (order_message_type an_order)
      good_sending.message_id
      (to_json whole key_json an_order)
      (order_headers write_nothing good_sending.message_id an_order)
an_order_fits =
    rw (the_kind, the_json_is, no_headers)
      (omega arith, omega arith, omega arith, omega arith, omega arith)

it_is_taken :
    (publish_message one_member true true good_link
      (pos 9)
      (str "orders")
      (str "CREATE_ORDER")
      (str "q1")
      the_json
      []
      joined).1
    ≡ true
unfolding publish_message connect make_session split_at handle_session_events handle_session_event
    compute_length wrap_and_apply_header put_string set_timestamp effective_publish_retry_attempts
it_is_taken = refl

pub driver_runs : is_terminated up_client ≡ false
unfolding throw_if_driver_terminated make_link
driver_runs = refl

pub it_is_up : client_is_connected true true up_client ≡ true
unfolding client_is_connected make_link connect make_session split_at handle_session_events
    handle_session_event
it_is_up = refl

an_order_is_sent :
    has_returned
      (publish_order committing write_nothing whole key_json
        (str "orders")
        good_sending
        an_order
        publisher).1
    ≡ true
an_order_is_sent =
    publish_order-returns committing write_nothing whole key_json (str "orders") good_sending
      an_order publisher driver_runs it_is_up
      (create-validate whole (str "BTC") (str "USD") (limit_buy 2 50) (pos 1) a_draw (cc) (cc)
        (refl, refl))
      (rw (the_kind, the_json_is, no_headers) it_is_taken)

publish_to-IsPublished_example :
    IsPublished committing write_nothing whole key_json
      (str "orders")
      counting_lib
      good_sending
      an_order
      publisher
      (publish_to committing write_nothing whole key_json
        (str "orders")
        none
        good_sending
        an_order
        publisher)
publish_to-IsPublished_example =
    publish_to-IsPublished committing write_nothing whole key_json (str "orders") counting_lib none
      good_sending an_order publisher joined-Reach an_order_fits an_order_is_sent
