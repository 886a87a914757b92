-- ===== src/Client/Link.antt =====
-- The connection state of ClusterClient::Impl (src/cluster_client.cpp): the members that
-- connecting, losing the connection and reconnecting work on. Logging, statistics that nothing
-- reads and waits are left out; each operation is one step.
pub mod Connecting
pub mod Reconnecting
pub mod Invariant
pub mod Loss
pub mod Restart
pub mod Runs
pub mod Watch
pub mod Endings
use aeron_cluster_client_cpp.Prelude.{
  ℕ, ◌+◌, Bytes, List, [], ◌∷◌, ◌++◌, Bool, true, false, ◌&&◌, Option, none, some, str, is_empty,
  if◌then◌else◌,
}
use aeron_cluster_client_cpp.Prelude.Int.{ℤ, minus_one, eq_ℤ}
use aeron_cluster_client_cpp.Parser.Outcome.{ErrorMessage, ParseResult}
use aeron_cluster_client_cpp.Session.Events.{
  session_event_error, session_event_redirect, session_event_authentication_rejected,
  session_event_closed,
}

pub data ConnectionState : Type 0 where
  disconnected connecting connected reconnecting failed : ConnectionState

abbrev pub same_state : ConnectionState → ConnectionState → Bool
same_state disconnected disconnected = true
same_state connecting connecting = true
same_state connected connected = true
same_state reconnecting reconnecting = true
same_state failed failed = true
same_state _ _ = false

-- The texts that the error callback gets.
pub data Reason : Type 0 where
  session_disconnected no_active_images health_check_failed : Reason
  session_closed session_error authentication_rejected : ErrorMessage → Reason
  delivery_stall : ℕ → Reason
  media_driver_error : Bytes → Reason
  auto_reconnect_failed : Reason → Reason
  message_handling_error : Reason

pub record ClientLink : Type 0 where
  pub connection_state : ConnectionState
  -- `stats_`
  pub stats_connected : Bool
  pub current_session_id : ℤ
  pub current_leader_id : ℤ
  pub auto_reconnect_enabled : Bool
  pub reconnect_in_progress : Bool
  pub disconnect_notified : Bool
  pub suppress_disconnect_notifications : Bool
  pub fatal_error_detected : Bool
  pub fatal_error_message : Bytes
  pub polling_active : Bool
  -- `polling_thread_.joinable()`
  pub polling_thread : Bool
  -- The two callbacks are set.
  pub has_state_callback : Bool
  pub has_error_callback : Bool
  -- What they were called with, and the reasons that reconnecting threads were started for, the
  -- latest first.
  pub state_calls : List (ConnectionState × ConnectionState)
  pub error_calls : List Reason
  pub reconnects : List Reason

-- The constructor, and which callbacks the program sets.
unfoldable pub make_link : Bool → Bool → ClientLink
make_link has_state_callback has_error_callback = record {
  connection_state = disconnected;
  stats_connected = false;
  current_session_id = minus_one;
  current_leader_id = minus_one;
  auto_reconnect_enabled = false;
  reconnect_in_progress = false;
  disconnect_notified = false;
  suppress_disconnect_notifications = false;
  fatal_error_detected = false;
  fatal_error_message = [];
  polling_active = false;
  polling_thread = false;
  has_state_callback = has_state_callback;
  has_error_callback = has_error_callback;
  state_calls = [];
  error_calls = [];
  reconnects = [];
}

unfoldable pub set_connection_state : ConnectionState → ClientLink → ClientLink
set_connection_state new_state l = if same_state l.connection_state new_state then l else record l {
  connection_state = new_state;
  state_calls =
      if l.has_state_callback
      then (l.connection_state, new_state) ∷ l.state_calls
      else l.state_calls;
}

-- `if (error_callback_) error_callback_(reason);`
abbrev pub call_error_callback : Reason → ClientLink → ClientLink
call_error_callback reason l = record l {
  error_calls = if l.has_error_callback then reason ∷ l.error_calls else l.error_calls;
}

unfoldable pub schedule_auto_reconnect : Reason → ClientLink → ClientLink
schedule_auto_reconnect reason l =
    if l.auto_reconnect_enabled
    then (if l.reconnect_in_progress
        then l
        else record l { reconnect_in_progress = true; reconnects = reason ∷ l.reconnects })
    else l

-- The members that a loss resets before the state.
abbrev pub without_session : ClientLink → ClientLink
without_session l = record l {
  disconnect_notified = true;
  stats_connected = false;
  current_session_id = minus_one;
  current_leader_id = minus_one;
  polling_active = false;
}

unfoldable pub notify_connection_loss : Reason → Bool → ClientLink → ClientLink
unfolding set_connection_state schedule_auto_reconnect
notify_connection_loss reason allow_auto_reconnect l =
    let l1 = set_connection_state disconnected (without_session l) in
    let l2 = call_error_callback reason l1 in
    if l.suppress_disconnect_notifications
    then l
    else if l.disconnect_notified
    then l
    else if allow_auto_reconnect && l2.auto_reconnect_enabled
    then schedule_auto_reconnect reason l2
    else l2

unfoldable pub on_session_connection_state_changed : Bool → ClientLink → ClientLink
unfolding notify_connection_loss
on_session_connection_state_changed up l =
    if up
    then record l { stats_connected = true; disconnect_notified = false }
    else notify_connection_loss session_disconnected true (record l { stats_connected = false })

unfoldable pub on_session_event : ParseResult → ClientLink → ClientLink
unfolding notify_connection_loss
on_session_event event l =
    let code = event.event_code in
    let message = event.error_message in
    if eq_ℤ code session_event_redirect
    then record l { current_leader_id = event.leader_member_id }
    else if eq_ℤ code session_event_closed
    then notify_connection_loss (session_closed message) true l
    else if eq_ℤ code session_event_error
    then notify_connection_loss (session_error message) true l
    else if eq_ℤ code session_event_authentication_rejected
    then notify_connection_loss (authentication_rejected message) false l
    else l

-- `none` is the end of the process: a thread object that is joinable is assigned to.
unfoldable pub start_polling : ClientLink → Option ClientLink
start_polling l =
    if l.polling_active
    then some l
    else if l.polling_thread
    then none
    else some (record l { polling_active = true; polling_thread = true })

-- Called on any thread but the polling thread, which it joins.
unfoldable pub stop_polling : ClientLink → ClientLink
stop_polling l = record l { polling_active = false; polling_thread = false }

unfoldable pub set_auto_reconnect : Bool → ClientLink → ClientLink
set_auto_reconnect enabled l = record l { auto_reconnect_enabled = enabled }

-- The answer of `throw_if_driver_terminated` is the text of the exception.
unfoldable pub throw_if_driver_terminated : ClientLink → Option Bytes
throw_if_driver_terminated l =
    if l.fatal_error_detected
    then some (
        str "Aeron driver failure: "
        ++ (if is_empty l.fatal_error_message
            then str "MediaDriver is no longer available"
            else l.fatal_error_message))
    else none

unfoldable pub clear_driver_error_state : ClientLink → ClientLink
clear_driver_error_state l = record l { fatal_error_detected = false; fatal_error_message = [] }

-- The session manager's `disconnect`, which is called between the two, calls nothing back.
unfoldable pub handle_aeron_error : Bytes → ClientLink → ClientLink
unfolding notify_connection_loss stop_polling
handle_aeron_error message l =
    let l1 = record l { fatal_error_message = message; fatal_error_detected = true } in
    if l.fatal_error_detected
    then l1
    else notify_connection_loss (media_driver_error message) false (stop_polling l1)
