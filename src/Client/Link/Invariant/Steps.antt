-- ===== src/Client/Link/Invariant/Steps.antt =====
-- Every operation of the link preserves its invariant.
use aeron_cluster_client_cpp.Prelude.{List, [], ◌∷◌, Bool, true, false, ◌&&◌, if◌then◌else◌}
use aeron_cluster_client_cpp.Prelude.Int.{eq_ℤ}
use aeron_cluster_client_cpp.Parser.Outcome.{ParseResult}
use aeron_cluster_client_cpp.Client.Link.{
  ClientLink, Reason, session_closed, session_error, authentication_rejected, session_disconnected,
  disconnected, set_connection_state, notify_connection_loss, schedule_auto_reconnect,
  on_session_connection_state_changed, on_session_event, call_error_callback, without_session,
}
use aeron_cluster_client_cpp.Session.Events.{
  session_event_error, session_event_redirect, session_event_authentication_rejected,
  session_event_closed,
}
use aeron_cluster_client_cpp.Client.Link.Connecting.{
  Callback, state_changed, session_event, call_back_all,
}
use aeron_cluster_client_cpp.Client.Link.Invariant.{IsWell, set_connection_state-IsWell}

-- Either branch of a test.
pub if-IsWell : (b : Bool) (x y : ClientLink) → IsWell x → IsWell y → IsWell (if b then x else y)
if-IsWell true x y wx wy = wx
if-IsWell false x y wx wy = wy

schedule_auto_reconnect-IsWell :
    (reason : Reason) (l : ClientLink) → IsWell l → IsWell (schedule_auto_reconnect reason l)
unfolding schedule_auto_reconnect
schedule_auto_reconnect-IsWell reason l w =
    if-IsWell l.auto_reconnect_enabled _ _
      (if-IsWell l.reconnect_in_progress _ _ w (record {
        callback = w.callback;
        calls = w.calls;
        notified = w.notified;
        polling = w.polling;
      }))
      w

pub call_error_callback-IsWell :
    (reason : Reason) (l : ClientLink) → IsWell l → IsWell (call_error_callback reason l)
call_error_callback-IsWell reason l w = record {
  callback = w.callback;
  calls = w.calls;
  notified = w.notified;
  polling = w.polling;
}

pub notify_connection_loss-IsWell :
    (reason : Reason) (allow : Bool) (l : ClientLink)
    → IsWell l
    → IsWell (notify_connection_loss reason allow l)
unfolding notify_connection_loss
notify_connection_loss-IsWell reason allow l w =
    let l1 = set_connection_state disconnected (without_session l) in
    let told : IsWell (call_error_callback reason l1) = call_error_callback-IsWell reason l1 (
      set_connection_state-IsWell disconnected (without_session l) w.callback w.calls (λ e. cc)
        (λ loud e. cc)) in
    if-IsWell l.suppress_disconnect_notifications _ _ w (
      if-IsWell l.disconnect_notified _ _ w (
        if-IsWell (allow && l1.auto_reconnect_enabled) _ _
          (schedule_auto_reconnect-IsWell reason (call_error_callback reason l1) told) told))

set_up-IsWell :
    (l : ClientLink)
    → IsWell l
    → IsWell (record l { stats_connected = true; disconnect_notified = false })
set_up-IsWell l w = record {
  callback = w.callback;
  calls = w.calls;
  notified = λ e. cc;
  polling = w.polling;
}

on_session_connection_state_changed-IsWell :
    (up : Bool) (l : ClientLink) → IsWell l → IsWell (on_session_connection_state_changed up l)
unfolding on_session_connection_state_changed
on_session_connection_state_changed-IsWell true l w = set_up-IsWell l w
on_session_connection_state_changed-IsWell false l w =
    notify_connection_loss-IsWell session_disconnected true (record l { stats_connected = false })
      (record {
        callback = w.callback;
        calls = w.calls;
        notified = w.notified;
        polling = w.polling;
      })

on_session_event-IsWell :
    (event : ParseResult) (l : ClientLink) → IsWell l → IsWell (on_session_event event l)
unfolding on_session_event
on_session_event-IsWell event l w =
    let code = event.event_code in
    let message = event.error_message in
    if-IsWell (eq_ℤ code session_event_redirect) _ _
      (record {
        callback = w.callback;
        calls = w.calls;
        notified = w.notified;
        polling = w.polling;
      })
      (if-IsWell (eq_ℤ code session_event_closed) _ _
        (notify_connection_loss-IsWell (session_closed message) true l w)
        (if-IsWell (eq_ℤ code session_event_error) _ _
          (notify_connection_loss-IsWell (session_error message) true l w)
          (if-IsWell (eq_ℤ code session_event_authentication_rejected) _ _
            (notify_connection_loss-IsWell (authentication_rejected message) false l w) w)))

pub call_back_all-IsWell :
    (calls : List Callback) (l : ClientLink) → IsWell l → IsWell (call_back_all calls l)
unfolding call_back_all
call_back_all-IsWell [] l w = w
call_back_all-IsWell (state_changed up ∷ calls) l w =
    call_back_all-IsWell calls _ (on_session_connection_state_changed-IsWell up l w)
call_back_all-IsWell (session_event event ∷ calls) l w =
    call_back_all-IsWell calls _ (on_session_event-IsWell event l w)
