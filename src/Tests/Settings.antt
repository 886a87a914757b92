-- ===== src/Tests/Settings.antt =====
-- The theorems on the settings, the search for a port and publish_topic at concrete values.
use aeron_cluster_client_cpp.Prelude.{
  ℕ, ◌+◌, ◌≤◌, ◌≡◌, refl, ◌↔◌, ◌⊎◌, List, [], ◌∷◌, ◌++◌, true, false, none, some, str, length,
  arith,
}
use aeron_cluster_client_cpp.Prelude.Dict.{lookup}
use aeron_cluster_client_cpp.Text.{to_string}
use aeron_cluster_client_cpp.Settings.{
  ClusterClientConfig, valid, Network, needs_port_resolution, resolve_egress_endpoint, channel_of,
  validate_rest, validate_config, with_default_topic, default_config, build,
}
use aeron_cluster_client_cpp.Settings.Checks.{IsSound, validate_config-IsSound}
use aeron_cluster_client_cpp.Settings.Ports.{
  PortDraw, port_found, none_available, is_tried, search_port, find_available_port,
}
use aeron_cluster_client_cpp.Settings.Ports.Found.{
  is_drawn, is_served, AreRefused, find_available_port_ends,
}
use aeron_cluster_client_cpp.Client.Ingress.{
  AckInfo, Outer, topic_uuid, publish_topic, on_ack_default,
}
use aeron_cluster_client_cpp.Client.Ingress.Inflight.{publish_topic_sends_nothing}
use aeron_cluster_client_cpp.Tests.Flows.{good_sending, up_client}
use aeron_cluster_client_cpp.Tests.Publishing.{driver_runs, it_is_up}

-- The second of three ports can be bound.
abbrev three_draws : List PortDraw
three_draws =
    (record { port = 40000; has_socket = true; bound = false })
    ∷ (record { port = 40000; has_socket = true; bound = true })
    ∷ (record { port = 40002; has_socket = false; bound = true })
    ∷ (record { port = 40001; has_socket = true; bound = true })
    ∷ []

every_port : (p : ℕ) → 40000 ≤ p → p ≤ 40000 + 2 → is_drawn p three_draws ≡ true
every_port p a b = ground arith

the_port : find_available_port 40000 40002 three_draws ≡ port_found 40001
unfolding find_available_port search_port is_tried
the_port = refl

find_available_port_ends_example :
    ((p : ℕ) × ((find_available_port 40000 (40000 + 2) three_draws ≡ port_found p)
        × (40000 ≤ p)
        × (p ≤ 40000 + 2)
        × (is_served p three_draws ≡ true)))
    ⊎ ((find_available_port 40000 (40000 + 2) three_draws ≡ none_available)
        × AreRefused (2 + 1) 40000 three_draws)
find_available_port_ends_example =
    find_available_port_ends 40000 2 three_draws
      (
        omega arith,
        omega arith,
        (omega arith, omega arith, (omega arith, omega arith, (omega arith, omega arith, tt))),
      )
      every_port

-- A network whose regular expression finds port 0 of localhost in every channel.
abbrev a_network : Network
a_network = record {
  regex_search = λ channel. some (str "localhost", str "0");
  regex_replace = λ channel endpoint. str "aeron:udp?" ++ endpoint;
  stoi = λ digits. some 0;
  local_ip = [];
  draws = (record { port = 40001; has_socket = true; bound = true }) ∷ [];
}

abbrev trades_config : ClusterClientConfig
trades_config = record default_config { default_topic = str "trades" }

abbrev resolved_config : ClusterClientConfig
resolved_config = record trades_config {
  response_channel = str "aeron:udp?endpoint=localhost:40001";
}

it_is_built : build a_network (with_default_topic (str "trades") ∷ []) ≡ valid resolved_config
unfolding build needs_port_resolution resolve_egress_endpoint validate_rest to_string
it_is_built = refl

validate_config-IsSound_example :
    (validate_config a_network trades_config ≡ valid resolved_config) ↔ (
      IsSound trades_config
      × ((channel_of a_network trades_config ≡ valid resolved_config.response_channel)
          × (resolved_config
              ≡ record trades_config { response_channel = resolved_config.response_channel })))
validate_config-IsSound_example = validate_config-IsSound a_network trades_config resolved_config

abbrev an_outer : Outer
an_outer = record { inner = up_client; inflight = [] }

abbrev an_ack : AckInfo
an_ack = record {
  timestamp_nanos = 5;
  ack_message_id = str "pub_" ++ to_string 1000;
  ack_topic = str "orders";
  correlation_id = [];
  simple_control_ack = false;
}

name_fits :
    length (str "orders")
      + length (str "CREATE")
      + length (str "{}")
      + length (str "{}")
      + length (str "pub_" ++ to_string 1000)
    ≤ 60000
unfolding to_string
name_fits = omega arith

not_in_flight : lookup (str "pub_" ++ to_string 1000) an_outer.inflight ≡ none
unfolding lookup
not_in_flight = refl

publish_topic_sends_nothing_example :
    ((publish_topic good_sending (str "orders") (str "CREATE") (str "{}") [] an_outer).1
      ≡ topic_uuid (str "pub_" ++ to_string 1000))
    × ((publish_topic good_sending (str "orders") (str "CREATE") (str "{}") [] an_outer).0.inner
        ≡ up_client)
    × (lookup
          (str "pub_" ++ to_string 1000)
          (publish_topic good_sending
            (str "orders")
            (str "CREATE")
            (str "{}")
            []
            an_outer).0.inflight
        ≡ some 1001)
    × (lookup
          (str "pub_" ++ to_string 1000)
          (on_ack_default an_ack
            (publish_topic good_sending
              (str "orders")
              (str "CREATE")
              (str "{}")
              []
              an_outer).0).inflight
        ≡ none)
publish_topic_sends_nothing_example =
    publish_topic_sends_nothing good_sending (str "orders") (str "CREATE") (str "{}") [] an_ack
      an_outer driver_runs it_is_up name_fits not_in_flight refl
