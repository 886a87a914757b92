-- ===== src/Tests/Clients.antt =====
-- The theorems on the client at concrete fragments, links and events.
use aeron_cluster_client_cpp.Prelude.{
  ℕ, ◌+◌, ◌≤◌, ◌≡◌, refl, Bytes, List, [], ◌∷◌, ◌++◌, true, false, Option, none, some, str, length,
  inl, inr, if◌then◌else◌,
}
use aeron_cluster_client_cpp.Prelude.Int.{pos}
use aeron_cluster_client_cpp.Parser.Outcome.{ParseResult, empty_result}
use aeron_cluster_client_cpp.Session.State.{Session, make_session}
use aeron_cluster_client_cpp.Client.Reassembler.{on_fragments}
use aeron_cluster_client_cpp.Client.Reassembler.Streams.{
  last, single, parts, Stream, done, next, on_fragments-Stream,
}
use aeron_cluster_client_cpp.Client.Link.{
  ClientLink, session_disconnected, no_active_images, make_link, notify_connection_loss,
}
use aeron_cluster_client_cpp.Client.Link.Connecting.{
  Callback, state_changed, session_event, call_back_all, Attempt, client_connect, client_disconnect,
}
use aeron_cluster_client_cpp.Client.Link.Reconnecting.{auto_reconnect}
use aeron_cluster_client_cpp.Client.Link.Invariant.{IsWell}
use aeron_cluster_client_cpp.Client.Link.Loss.{call_back_all_once}
use aeron_cluster_client_cpp.Client.Link.Restart.{client_connect-notify_connection_loss}
use aeron_cluster_client_cpp.Client.Link.Endings.{IsOver, auto_reconnect-IsOver}
use aeron_cluster_client_cpp.Client.Link.Runs.{Call, connects, loses, run_calls, run_calls-IsWell}
use aeron_cluster_client_cpp.Client.SessionEvents.{
  receive_session_event, receive_session_event-loss,
}

-- A message in two fragments, then one in a single fragment.
abbrev tail_fragments : List (ℕ × Bytes)
tail_fragments = (64, str "cd") ∷ []

abbrev two_fragments : List (ℕ × Bytes)
two_fragments = (128, str "ab") ∷ tail_fragments

abbrev one_fragment : List (ℕ × Bytes)
one_fragment = (192, str "e") ∷ []

one_fragment-Stream : Stream one_fragment (str "e" ∷ [])
one_fragment-Stream =
    next one_fragment [] one_fragment (str "e") [] refl (single 192 (str "e") refl refl) done

two_fragments-Stream : Stream (two_fragments ++ one_fragment) (str "abcd" ∷ str "e" ∷ [])
two_fragments-Stream =
    next two_fragments one_fragment (two_fragments ++ one_fragment) (str "abcd") (str "e" ∷ []) refl
      (parts 128 (str "ab") tail_fragments (str "cd") refl refl (last 64 (str "cd") refl refl))
      one_fragment-Stream

on_fragments-Stream_example :
    (on_fragments (two_fragments ++ one_fragment) (str "old")).1 ≡ str "abcd" ∷ str "e" ∷ []
on_fragments-Stream_example =
    on_fragments-Stream (two_fragments ++ one_fragment) (str "abcd" ∷ str "e" ∷ []) (str "old")
      two_fragments-Stream

-- An attempt that connects, and whose session is accepted meanwhile.
abbrev pub good_attempt : Attempt
good_attempt = record {
  initialized = true;
  subscribed = true;
  callbacks = state_changed true ∷ [];
  result = record {
    success = true;
    session_id = pos 7;
    leader_member_id = pos 0;
    leadership_term_id = pos 3;
  };
}

abbrev connected_once : List Call
connected_once = connects good_attempt ∷ loses no_active_images ∷ []

-- The link after the two calls, if the process goes on.
abbrev or_new : Option ClientLink → ClientLink
or_new none = make_link true true
or_new (some l) = l

abbrev lost : ClientLink
lost = or_new (run_calls connected_once (make_link true true))

run_calls_goes_on : run_calls connected_once (make_link true true) ≡ some lost
unfolding run_calls make_link
run_calls_goes_on = refl

run_calls-IsWell_example : IsWell lost
run_calls-IsWell_example = run_calls-IsWell connected_once true lost run_calls_goes_on

-- An event that rejects the authentication.
abbrev rejecting : ParseResult
rejecting = record empty_result { template_id = 2; schema_id = 111; event_code = pos 3 }

abbrev lossy : List Callback
lossy = state_changed false ∷ session_event rejecting ∷ state_changed false ∷ []

call_back_all_once_example :
    let l' = call_back_all lossy (make_link true true) in
    let most : ℕ = if (make_link true true).disconnect_notified then 0 else 1 in
    (length l'.error_calls ≤ length (make_link true true).error_calls + most)
    × (length l'.reconnects ≤ length (make_link true true).reconnects + most)
call_back_all_once_example = call_back_all_once lossy (make_link true true) tt

-- A link whose polling thread has been started.
abbrev polled : ClientLink
polled = record (make_link true true) { polling_active = true; polling_thread = true }

client_connect-notify_connection_loss_example :
    (client_connect good_attempt (notify_connection_loss no_active_images true polled) ≡ none)
    × (client_connect good_attempt
          (client_disconnect (notify_connection_loss no_active_images true polled))
        ≡ none)
unfolding make_link
client_connect-notify_connection_loss_example =
    client_connect-notify_connection_loss good_attempt no_active_images true polled refl refl refl
      refl refl

auto_reconnect-IsOver_example :
    (l' : ClientLink) × (auto_reconnect (λ n. good_attempt) session_disconnected polled ≡ some l')
    × IsOver l'
auto_reconnect-IsOver_example =
    auto_reconnect-IsOver (λ n. good_attempt) session_disconnected polled

abbrev watched : Session
watched = make_session (pos 5) true

abbrev watchful : ClientLink
watchful = record (make_link true true) { auto_reconnect_enabled = true }

receive_session_event-loss_example :
    let l' = (receive_session_event rejecting watched watchful).1 in
    (l'.error_calls ≡ session_disconnected ∷ watchful.error_calls)
    × (l'.reconnects ≡ session_disconnected ∷ watchful.reconnects)
unfolding make_link make_session
receive_session_event-loss_example =
    receive_session_event-loss rejecting watched watchful refl (inr (inl refl)) refl
      (record { heard = refl; new = refl; error_callback = refl; enabled = refl; idle = refl })
