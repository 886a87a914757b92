-- ===== src/Client/Link/Runs.antt =====
-- Sequences of calls of the link.
use aeron_cluster_client_cpp.Prelude.{
  ℕ, Bytes, List, [], ◌∷◌, Bool, true, Option, none, some, ◌≡◌, subst,
}
use aeron_cluster_client_cpp.Client.Link.{
  ClientLink, Reason, make_link, notify_connection_loss, stop_polling, handle_aeron_error,
  set_auto_reconnect,
}
use aeron_cluster_client_cpp.Client.Link.Connecting.{
  Callback, call_back, Attempt, client_connect, client_disconnect, call_back_all,
}
use aeron_cluster_client_cpp.Client.Link.Reconnecting.{auto_reconnect}
use aeron_cluster_client_cpp.Client.Link.Invariant.{IsWell, make_link-IsWell}
use aeron_cluster_client_cpp.Client.Link.Invariant.Steps.{
  call_back_all-IsWell, notify_connection_loss-IsWell,
}
use aeron_cluster_client_cpp.Client.Link.Invariant.Calls.{
  Connects, Lives, client_connect-Connects, client_disconnect-IsWell, auto_reconnect-Lives,
  handle_aeron_error-IsWell, stop_polling-IsWell,
}

-- A call by the session manager, the program, the reconnecting thread, the driver or the polling
-- thread.
pub data Call : Type 0 where
  calls_back : Callback → Call
  connects : Attempt → Call
  disconnects stops_polling : Call
  reconnects_by : (ℕ → Attempt) → Reason → Call
  driver_fails : Bytes → Call
  loses : Reason → Call
  enables : Bool → Call

abbrev forget_success : Option (Bool × ClientLink) → Option ClientLink
forget_success none = none
forget_success (some (success, l)) = some l

-- `none` is the end of the process.
unfoldable pub perform : Call → ClientLink → Option ClientLink
unfolding call_back client_connect client_disconnect stop_polling auto_reconnect handle_aeron_error
    notify_connection_loss set_auto_reconnect
perform (calls_back c) l = some (call_back c l)
perform (connects attempt) l = forget_success (client_connect attempt l)
perform disconnects l = some (client_disconnect l)
perform stops_polling l = some (stop_polling l)
perform (reconnects_by attempts reason) l = auto_reconnect attempts reason l
perform (driver_fails message) l = some (handle_aeron_error message l)
perform (loses reason) l = some (notify_connection_loss reason true l)
perform (enables enabled) l = some (set_auto_reconnect enabled l)

abbrev run_next : (ClientLink → Option ClientLink) → Option ClientLink → Option ClientLink
run_next next none = none
run_next next (some l) = next l

unfoldable pub run_calls : List Call → ClientLink → Option ClientLink
unfolding perform
run_calls [] l = some l
run_calls (c ∷ calls) l = run_next (run_calls calls) (perform c l)

forget_success-Lives : (x : Option (Bool × ClientLink)) → Connects x → Lives (forget_success x)
forget_success-Lives none w = tt
forget_success-Lives (some (success, l)) w = w

set_auto_reconnect-IsWell :
    (enabled : Bool) (l : ClientLink) → IsWell l → IsWell (set_auto_reconnect enabled l)
unfolding set_auto_reconnect
set_auto_reconnect-IsWell enabled l w = record {
  callback = w.callback;
  calls = w.calls;
  notified = w.notified;
  polling = w.polling;
}

perform-Lives : (c : Call) (l : ClientLink) → IsWell l → Lives (perform c l)
unfolding perform call_back_all
perform-Lives (calls_back c) l w = call_back_all-IsWell (c ∷ []) l w
perform-Lives (connects attempt) l w =
    forget_success-Lives (client_connect attempt l) (client_connect-Connects attempt l w)
perform-Lives disconnects l w = client_disconnect-IsWell l w
perform-Lives stops_polling l w = stop_polling-IsWell l w
perform-Lives (reconnects_by attempts reason) l w = auto_reconnect-Lives attempts reason l w
perform-Lives (driver_fails message) l w = handle_aeron_error-IsWell message l w
perform-Lives (loses reason) l w = notify_connection_loss-IsWell reason true l w
perform-Lives (enables enabled) l w = set_auto_reconnect-IsWell enabled l w

run_next_calls-Lives :
    (next : ClientLink → Option ClientLink) (x : Option ClientLink)
    → ((l : ClientLink) → IsWell l → Lives (next l))
    → Lives x
    → Lives (run_next next x)
run_next_calls-Lives next none ih w = tt
run_next_calls-Lives next (some l) ih w = ih l w

run_calls-Lives : (calls : List Call) (l : ClientLink) → IsWell l → Lives (run_calls calls l)
unfolding run_calls
run_calls-Lives [] l w = w
run_calls-Lives (c ∷ calls) l w =
    run_next_calls-Lives (run_calls calls) (perform c l) (run_calls-Lives calls)
      (perform-Lives c l w)

-- After any sequence of calls of a new link whose state callback is set, in any order and with any
-- outcomes, unless the process has ended: the calls of the state callback lead step by step from
-- DISCONNECTED to the present state and none keeps the state; after a notified loss the state is
-- not CONNECTED; and while polling is active its thread object is joinable.
pub run_calls-IsWell :
    (calls : List Call) (has_error_callback : Bool) (l : ClientLink)
    → run_calls calls (make_link true has_error_callback) ≡ some l
    → IsWell l
run_calls-IsWell calls b l e =
    subst Lives e (run_calls-Lives calls (make_link true b) (make_link-IsWell b))
