-- ===== src/Client/Link/Invariant/Calls.antt =====
-- Connecting, reconnecting and errors preserve the invariant, and so does any sequence of calls.
use aeron_cluster_client_cpp.Prelude.{
  ℕ, zero, suc, ◌+◌, Bytes, Bool, true, false, Option, none, some, ◌≢◌, refl, if◌then◌else◌,
}
use aeron_cluster_client_cpp.Client.Link.{
  ClientLink, Reason, ConnectionState, disconnected, connecting, connected, failed, same_state,
  media_driver_error, set_connection_state, start_polling, auto_reconnect_failed, stop_polling,
  clear_driver_error_state, handle_aeron_error,
}
use aeron_cluster_client_cpp.Client.Link.Connecting.{
  call_back_all, Attempt, established, finish_connect, client_connect, map_some, client_disconnect,
}
use aeron_cluster_client_cpp.Client.Link.Reconnecting.{
  give_up, after_attempt, reconnect_loop, auto_reconnect, max_reconnect_attempts,
}
use aeron_cluster_client_cpp.Client.Link.Invariant.{IsWell, set_connection_state-IsWell}
use aeron_cluster_client_cpp.Client.Link.Invariant.Steps.{
  if-IsWell, call_back_all-IsWell, notify_connection_loss-IsWell, call_error_callback-IsWell,
}

-- To a state other than CONNECTED.
set_down-IsWell :
    (state : ConnectionState) (l : ClientLink)
    → state ≢ connected
    → IsWell l
    → IsWell (set_connection_state state l)
set_down-IsWell state l down w =
    set_connection_state-IsWell state l w.callback w.calls w.polling (λ loud. down)

-- If the process goes on, the link is well.
abbrev pub Connects : Option (Bool × ClientLink) → Type 0
Connects none = Unit
Connects (some (success, l)) = IsWell l

if-pair :
    (b : Bool) (x y : Bool × ClientLink) → IsWell x.1 → IsWell y.1 → IsWell (if b then x else y).1
if-pair true x y wx wy = wx
if-pair false x y wx wy = wy

if-Connects :
    (b : Bool) (x y : Option (Bool × ClientLink))
    → Connects x
    → Connects y
    → Connects (if b then x else y)
if-Connects true x y wx wy = wx
if-Connects false x y wx wy = wy

finish_connect-IsWell :
    (attempt : Attempt) (l : ClientLink) → IsWell l → IsWell (finish_connect attempt l).1
unfolding finish_connect established clear_driver_error_state
finish_connect-IsWell attempt l w =
    let l1 = call_back_all attempt.callbacks l in
    let w1 = call_back_all-IsWell attempt.callbacks l w in
    if-pair attempt.subscribed _ _
      (if-pair attempt.result.success _ _
        (set_connection_state-IsWell connected
          (clear_driver_error_state (established attempt.result l1)) w1.callback w1.calls w1.polling
          (λ loud e. cc))
        (set_down-IsWell failed l1 (λ e. cc) w1))
      (set_down-IsWell failed l (λ e. cc) w)

abbrev pub Lives : Option ClientLink → Type 0
Lives none = Unit
Lives (some l) = IsWell l

if-Lives : (b : Bool) (x y : Option ClientLink) → Lives x → Lives y → Lives (if b then x else y)
if-Lives true x y wx wy = wx
if-Lives false x y wx wy = wy

start_polling-Lives : (l : ClientLink) → IsWell l → Lives (start_polling l)
unfolding start_polling
start_polling-Lives l w = if-Lives l.polling_active _ _ w (
    if-Lives l.polling_thread _ _ tt (record {
      callback = w.callback;
      calls = w.calls;
      notified = w.notified;
      polling = λ e. refl;
    }))

map_some-Connects :
    (attempt : Attempt) (x : Option ClientLink)
    → Lives x
    → Connects (map_some (finish_connect attempt) x)
map_some-Connects attempt none w = tt
map_some-Connects attempt (some l) w = finish_connect-IsWell attempt l w

pub client_connect-Connects :
    (attempt : Attempt) (l : ClientLink) → IsWell l → Connects (client_connect attempt l)
unfolding client_connect
client_connect-Connects attempt l w =
    let l1 = set_connection_state connecting l in
    let w1 = set_down-IsWell connecting l (λ e. cc) w in
    if-Connects (same_state l.connection_state connected) _ _ w (
      if-Connects attempt.initialized _ _
        (map_some-Connects attempt (start_polling l1) (start_polling-Lives l1 w1))
        (set_down-IsWell failed l1 (λ e. cc) w1))

pub stop_polling-IsWell : (l : ClientLink) → IsWell l → IsWell (stop_polling l)
unfolding stop_polling
stop_polling-IsWell l w = record {
  callback = w.callback;
  calls = w.calls;
  notified = w.notified;
  polling = λ e. cc;
}

pub client_disconnect-IsWell : (l : ClientLink) → IsWell l → IsWell (client_disconnect l)
unfolding client_disconnect
client_disconnect-IsWell l w =
    let l1 = record l { suppress_disconnect_notifications = false } in
    let w1 : IsWell l1 = record {
      callback = w.callback;
      calls = w.calls;
      notified = w.notified;
      polling = w.polling;
    } in
    let w2 = set_down-IsWell disconnected (stop_polling l1) (λ e. cc) (stop_polling-IsWell l1 w1) in
    if-IsWell (same_state l.connection_state connected) _ _
      (record {
        callback = w2.callback;
        calls = w2.calls;
        notified = w2.notified;
        polling = w2.polling;
      })
      w1

give_up-IsWell : (reason : Reason) (l : ClientLink) → IsWell l → IsWell (give_up reason l)
unfolding give_up
give_up-IsWell reason l w =
    let l1 = record l { reconnect_in_progress = false } in
    let w1 : IsWell l1 = record {
      callback = w.callback;
      calls = w.calls;
      notified = w.notified;
      polling = w.polling;
    } in
    if-IsWell l.auto_reconnect_enabled _ _
      (call_error_callback-IsWell (auto_reconnect_failed reason) l1 w1) w1

after_attempt-Lives :
    (next : ClientLink → Option ClientLink) (x : Option (Bool × ClientLink))
    → ((l : ClientLink) → IsWell l → Lives (next l))
    → Connects x
    → Lives (after_attempt next x)
after_attempt-Lives next none ih w = tt
after_attempt-Lives next (some (true, l)) ih w = record {
  callback = w.callback;
  calls = w.calls;
  notified = λ e. cc;
  polling = w.polling;
}
after_attempt-Lives next (some (false, l)) ih w = ih (stop_polling l) (stop_polling-IsWell l w)

reconnect_loop-Lives :
    (attempts : ℕ → Attempt) (left i : ℕ) (reason : Reason) (l : ClientLink)
    → IsWell l
    → Lives (reconnect_loop attempts left i reason l)
unfolding reconnect_loop
reconnect_loop-Lives attempts zero i reason l w = give_up-IsWell reason l w
reconnect_loop-Lives attempts (suc left) i reason l w =
    let l1 = record l { suppress_disconnect_notifications = false } in
    let w1 : IsWell l1 = record {
      callback = w.callback;
      calls = w.calls;
      notified = w.notified;
      polling = w.polling;
    } in
    if-Lives l.auto_reconnect_enabled _ _
      (after_attempt-Lives (reconnect_loop attempts left (i + 1) reason)
        (client_connect (attempts i) l1) (reconnect_loop-Lives attempts left (i + 1) reason)
        (client_connect-Connects (attempts i) l1 w1))
      (give_up-IsWell reason l w)

pub auto_reconnect-Lives :
    (attempts : ℕ → Attempt) (reason : Reason) (l : ClientLink)
    → IsWell l
    → Lives (auto_reconnect attempts reason l)
unfolding auto_reconnect
auto_reconnect-Lives attempts reason l w =
    reconnect_loop-Lives attempts max_reconnect_attempts 1 reason (stop_polling l)
      (stop_polling-IsWell l w)

pub handle_aeron_error-IsWell :
    (message : Bytes) (l : ClientLink) → IsWell l → IsWell (handle_aeron_error message l)
unfolding handle_aeron_error stop_polling
handle_aeron_error-IsWell message l w =
    let l1 = record l { fatal_error_message = message; fatal_error_detected = true } in
    let w1 : IsWell l1 = record {
      callback = w.callback;
      calls = w.calls;
      notified = w.notified;
      polling = w.polling;
    } in
    if-IsWell l.fatal_error_detected _ _ w1 (
      notify_connection_loss-IsWell (media_driver_error message) false (stop_polling l1)
        (stop_polling-IsWell l1 w1))
