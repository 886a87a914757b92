-- ===== src/Client/Link/Connecting.antt =====
-- `connect` and `disconnect` of ClusterClient::Impl.
use aeron_cluster_client_cpp.Prelude.{
  List, [], ◌∷◌, Bool, true, false, Option, none, some, if◌then◌else◌,
}
use aeron_cluster_client_cpp.Prelude.Int.{minus_one}
use aeron_cluster_client_cpp.Parser.Outcome.{ParseResult}
use aeron_cluster_client_cpp.Session.Connect.{Connection}
use aeron_cluster_client_cpp.Client.Link.{
  ClientLink, disconnected, connecting, connected, failed, same_state, set_connection_state,
  on_session_connection_state_changed, on_session_event, start_polling, stop_polling,
  clear_driver_error_state,
}

-- The calls that the session manager makes of the client's callbacks.
pub data Callback : Type 0 where
  state_changed : Bool → Callback
  session_event : ParseResult → Callback

unfoldable pub call_back : Callback → ClientLink → ClientLink
unfolding on_session_connection_state_changed on_session_event
call_back (state_changed up) l = on_session_connection_state_changed up l
call_back (session_event event) l = on_session_event event l

unfoldable pub call_back_all : List Callback → ClientLink → ClientLink
unfolding call_back
call_back_all [] l = l
call_back_all (c ∷ calls) l = call_back_all calls (call_back c l)

-- What one `connect` meets: the results of `initialize_aeron`, `create_egress_subscription` and
-- the session manager's `connect`, and the callbacks while that runs.
pub record Attempt : Type 0 where
  pub initialized : Bool
  pub subscribed : Bool
  pub callbacks : List Callback
  pub result : Connection

-- The members that a successful connection sets, before the state.
unfoldable pub established : Connection → ClientLink → ClientLink
established result l = record l {
  current_session_id = result.session_id;
  current_leader_id = result.leader_member_id;
  stats_connected = true;
  disconnect_notified = false;
  reconnect_in_progress = false;
}

-- From the session manager's `connect` on. `resume_subscribed_topics` changes no member of the link.
unfoldable pub finish_connect : Attempt → ClientLink → Bool × ClientLink
unfolding call_back_all established clear_driver_error_state set_connection_state
finish_connect attempt l =
    let l1 = call_back_all attempt.callbacks l in
    if attempt.subscribed
    then (if attempt.result.success
        then (
          true,
          set_connection_state connected (clear_driver_error_state (established attempt.result l1)),
        )
        else (false, set_connection_state failed l1))
    else (false, set_connection_state failed l)

abbrev pub map_some :
    (ClientLink → Bool × ClientLink) → Option ClientLink → Option (Bool × ClientLink)
map_some f none = none
map_some f (some l) = some (f l)

-- `none` is the end of the process in `start_polling`.
unfoldable pub client_connect : Attempt → ClientLink → Option (Bool × ClientLink)
unfolding set_connection_state start_polling finish_connect
client_connect attempt l =
    let l1 = set_connection_state connecting l in
    if same_state l.connection_state connected
    then some (true, l)
    else if attempt.initialized
    then map_some (finish_connect attempt) (start_polling l1)
    else some (false, set_connection_state failed l1)

-- The session manager's `disconnect` comes first; the notifications are suppressed meanwhile.
unfoldable pub client_disconnect : ClientLink → ClientLink
unfolding stop_polling set_connection_state
client_disconnect l =
    let l1 = record l { suppress_disconnect_notifications = false } in
    let l2 = set_connection_state disconnected (stop_polling l1) in
    if same_state l.connection_state connected
    then record l2 {
      current_session_id = minus_one;
      current_leader_id = minus_one;
      stats_connected = false;
    }
    else l1
