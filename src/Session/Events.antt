-- ===== src/Session/Events.antt =====
-- The handlers of session events. The event callback is the client's and is left out.
use aeron_cluster_client_cpp.Prelude.{◌+◌, List, [], ◌∷◌, true, false, ◌||◌, if◌then◌else◌}
use aeron_cluster_client_cpp.Prelude.Int.{ℤ, pos, minus_one, eq_ℤ}
use aeron_cluster_client_cpp.Parser.Outcome.{ParseResult, is_session_event}
use aeron_cluster_client_cpp.Session.State.{
  Session, call_state_callback, update_session_header, update_keepalive_buffer,
}

-- SBEConstants of include/aeron_cluster/config.hpp.
abbrev pub session_event_ok : ℤ
session_event_ok = pos 0

abbrev pub session_event_error : ℤ
session_event_error = pos 1

abbrev pub session_event_redirect : ℤ
session_event_redirect = pos 2

abbrev pub session_event_authentication_rejected : ℤ
session_event_authentication_rejected = pos 3

abbrev pub session_event_closed : ℤ
session_event_closed = pos 4

unfoldable pub handle_session_redirect : ParseResult → Session → Session
handle_session_redirect result s = record s {
  redirects_received = s.redirects_received + 1;
  redirected_to_member_id = result.leader_member_id;
  leader_member_id = result.leader_member_id;
}

-- The session's id is taken from the event's correlation id.
unfoldable pub handle_session_ok : ParseResult → Session → Session
unfolding update_session_header update_keepalive_buffer
handle_session_ok result s =
    let s1 = record s {
      session_id = result.correlation_id;
      connected = true;
      leadership_term_id = result.leadership_term_id;
      leader_member_id = result.leader_member_id;
    } in
    call_state_callback true (update_keepalive_buffer (update_session_header s1))

unfoldable pub handle_session_error : Session → Session
handle_session_error s = call_state_callback false (record s { connected = false })

unfoldable pub handle_session_closed : Session → Session
handle_session_closed s =
    call_state_callback false (record s { connected = false; session_id = minus_one })

unfoldable pub handle_session_event : ParseResult → Session → Session
unfolding handle_session_ok handle_session_redirect handle_session_error handle_session_closed
handle_session_event result s =
    let s1 = record s { session_events_received = s.session_events_received + 1 } in
    let code = result.event_code in
    if is_session_event result
    then (if eq_ℤ code session_event_ok
        then handle_session_ok result s1
        else if eq_ℤ code session_event_redirect
        then handle_session_redirect result s1
        else if eq_ℤ code session_event_error || eq_ℤ code session_event_authentication_rejected
        then handle_session_error s1
        else if eq_ℤ code session_event_closed
        then handle_session_closed s1
        else s1)
    else s

-- The events of one poll, in order.
unfoldable pub handle_session_events : List ParseResult → Session → Session
handle_session_events [] s = s
handle_session_events (e ∷ events) s = handle_session_events events (handle_session_event e s)
