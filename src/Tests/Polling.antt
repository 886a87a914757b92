-- ===== src/Tests/Polling.antt =====
-- The theorem on the polling thread where nothing comes for 28 seconds, with a timeout of 15, and the
-- theorem on termination signals with two clients.
use aeron_cluster_client_cpp.Prelude.{
  ℕ, ◌+◌, ◌≡◌, refl, List, [], ◌∷◌, Bool, true, false, ◌==◌, length, arith,
}
use aeron_cluster_client_cpp.Prelude.Int.{pos}
use aeron_cluster_client_cpp.Session.State.{make_session}
use aeron_cluster_client_cpp.Session.Send.{is_connected}
use aeron_cluster_client_cpp.Session.Events.{handle_session_event, handle_session_events}
use aeron_cluster_client_cpp.Session.Endpoint.{split_at}
use aeron_cluster_client_cpp.Session.Connect.{connect}
use aeron_cluster_client_cpp.Client.Link.{make_link, connected}
use aeron_cluster_client_cpp.Client.State.{Client}
use aeron_cluster_client_cpp.Client.Polling.{Round, polling_worker}
use aeron_cluster_client_cpp.Client.Polling.Grace.{StaysUp, poll_all, polling_worker-poll_all}
use aeron_cluster_client_cpp.Signals.{
  empty_registry, register_client, remove_client, unregister_client, valid_clients, disconnect_each,
  disconnect_all_clients,
}
use aeron_cluster_client_cpp.Signals.Due.{
  Step, registers, unregisters, expires, run_steps, due, times, disconnect_all_clients-due,
}
use aeron_cluster_client_cpp.Tests.Flows.{client_with}

abbrev polling_client : Client
polling_client = client_with (record (make_link true true) {
  connection_state = connected;
  polling_active = true;
  polling_thread = true;
})

abbrev silent_round : ℕ → Round
silent_round now = record {
  now = now;
  session_up = true;
  egress_up = false;
  has_images = false;
  has_aeron = true;
  poll_messages = λ c. (c, 0);
}

abbrev silence : List Round
silence = silent_round 7000000000 ∷ silent_round 14000000000 ∷ silent_round 28000000000 ∷ []

silence-StaysUp : StaysUp 0 silence polling_client
unfolding StaysUp is_connected connect make_session split_at handle_session_events
    handle_session_event make_link
silence-StaysUp = (
  refl,
  refl,
  refl,
  omega arith,
  (refl, refl, refl, omega arith, (refl, refl, refl, omega arith, tt)),
)

polling_worker-poll_all_example :
    polling_worker (pos 15000) 0 silence polling_client ≡ (poll_all silence polling_client, true)
polling_worker-poll_all_example =
    polling_worker-poll_all (pos 15000) 0 silence polling_client silence-StaysUp

-- Client 1 connects twice and client 2 once, client 3 goes away.
abbrev some_steps : List Step
some_steps = registers 1 ∷ registers 2 ∷ registers 3 ∷ registers 1 ∷ expires 3 ∷ unregisters 3 ∷ []

abbrev second_fails : ℕ → Bool
second_fails c = c == 2

they_are_called :
    (disconnect_all_clients second_fails (run_steps some_steps empty_registry)).called
    ≡ 1 ∷ 2 ∷ 1 ∷ []
unfolding disconnect_all_clients disconnect_each valid_clients run_steps register_client
    unregister_client remove_client
they_are_called = refl

disconnect_all_clients-due_example :
    (times 1 (disconnect_all_clients second_fails (run_steps some_steps empty_registry)).called
      ≡ due 1 true 0 some_steps)
    × ((disconnect_all_clients second_fails
            (run_steps some_steps empty_registry)).disconnected_count
          + (disconnect_all_clients second_fails (run_steps some_steps empty_registry)).failed_count
        ≡ length (disconnect_all_clients second_fails (run_steps some_steps empty_registry)).called)
disconnect_all_clients-due_example = disconnect_all_clients-due second_fails some_steps 1
