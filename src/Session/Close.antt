-- ===== src/Session/Close.antt =====
-- `disconnect`, which asks the cluster to close the session and then forgets it.
use aeron_cluster_client_cpp.Prelude.{
  ℕ, zero, suc, ◌+◌, Bytes, Bool, false, ◌&&◌, ◌||◌, if◌then◌else◌,
}
use aeron_cluster_client_cpp.Prelude.Int.{minus_one, is_positive}
use aeron_cluster_client_cpp.Encoder.{encode_session_close_request}
use aeron_cluster_client_cpp.Session.State.{Config, Session}
use aeron_cluster_client_cpp.Session.Send.{Link, send_raw_message}

-- `while (attempts > 0)`, from try `i` on, with a link for each try.
unfoldable pub close_loop : Config → ℕ → ℕ → (ℕ → Link) → Bytes → Session → Session
unfolding send_raw_message
close_loop c zero i links request s = s
close_loop c (suc attempts) i links request s =
    let (s', sent) = send_raw_message c (links i) request s in
    let rest = close_loop c attempts (i + 1) links request s' in if sent then s' else rest

unfoldable pub should_send_close : Session → Bool
should_send_close s = is_positive s.session_id && is_positive s.leadership_term_id

-- `up` is what `isConnected` answers before the first try.
unfoldable pub disconnect : Config → Bool → (ℕ → Link) → Session → Session
unfolding should_send_close close_loop
disconnect c up links s =
    let request = encode_session_close_request s.leadership_term_id s.session_id in
    let asked = close_loop c 3 0 links request s in
    let s1 =
      if should_send_close s && s.ingress_publication && (up || s.connected) then asked else s in
    record s1 { ingress_publication = false; connected = false; session_id = minus_one }
