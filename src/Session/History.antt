-- ===== src/Session/History.antt =====
-- The session manager's histories: the calls of its public operations and the session events it
-- handles, in any order, from the constructor on.
use aeron_cluster_client_cpp.Prelude.{
  ℕ, zero, suc, ◌+◌, ◌≡◌, refl, Bytes, List, [], Bool, true, Option,
}
use aeron_cluster_client_cpp.Prelude.Int.{ℤ}
use aeron_cluster_client_cpp.Parser.Outcome.{ParseResult}
use aeron_cluster_client_cpp.Session.State.{Config, Session, make_session}
use aeron_cluster_client_cpp.Session.Send.{
  Link, send_raw_message, send_combined_message, send_keepalive,
}
use aeron_cluster_client_cpp.Session.Events.{handle_session_event, handle_session_events}
use aeron_cluster_client_cpp.Session.Close.{disconnect}
use aeron_cluster_client_cpp.Session.Connect.{
  Try, Connection, connected_result, Progress, Ended, end_attempt, connect_loop, connect_attempt,
  rounds_of, connect,
}
use aeron_cluster_client_cpp.Session.Sync.{
  IsSynced, Quiet-IsSynced, make_session-IsSynced, handle_session_event-IsSynced,
  handle_session_events-IsSynced,
}
use aeron_cluster_client_cpp.Session.Steps.{
  send_raw_message-QuietSent, send_combined_message-QuietSent, send_keepalive-QuietSent,
  disconnect-Quiet,
}
use aeron_cluster_client_cpp.Session.Reach.{
  IsEnded, has_returned, has_gone_on, connect_attempt-IsEnded,
}

-- What `connect` returns.
pub record IsConnectResult (r : Connection × Progress) : Type 0 where
  pub synced : IsSynced (r.1).session
  pub up :
      (r.0).success ≡ true
      → ((r.1).session.connected ≡ true) × (r.0 ≡ connected_result (r.1).session)

end_attempt-IsConnectResult :
    (sleep : List ParseResult) (next : Progress → Connection × Progress) (e : Ended)
    → ((p : Progress) → IsSynced p.session → IsConnectResult (next p))
    → IsEnded e
    → IsConnectResult (end_attempt sleep next e)
end_attempt-IsConnectResult sleep next _ rest (has_returned v up) = record {
  synced = v;
  up = λ h. (up, refl);
}
end_attempt-IsConnectResult sleep next _ rest (has_gone_on {p} v) =
    rest (record p { session = handle_session_events sleep p.session })
      (handle_session_events-IsSynced sleep p.session v)

module _ (stoi : Bytes → Option ℤ) (c : Config) (env : ℕ → Try) where
  connect_loop-IsConnectResult :
      (left n : ℕ) (sleeps : ℕ → List ParseResult) (p : Progress)
      → IsSynced p.session
      → IsConnectResult (connect_loop stoi c env left n sleeps p)
  unfolding connect_loop
  connect_loop-IsConnectResult zero n sleeps p v = record { synced = v; up = λ h. cc }
  connect_loop-IsConnectResult (suc left) n sleeps p v =
      end_attempt-IsConnectResult (sleeps n) (connect_loop stoi c env left (n + 1) sleeps)
        (connect_attempt stoi c env p) (connect_loop-IsConnectResult left (n + 1) sleeps)
        (connect_attempt-IsEnded stoi c env p v)

  connect-IsConnectResult :
      (sleeps : ℕ → List ParseResult) (s : Session)
      → IsSynced s
      → IsConnectResult (connect stoi c env sleeps s)
  unfolding connect
  connect-IsConnectResult sleeps s v =
      connect_loop-IsConnectResult (rounds_of c.max_retries) 0 sleeps
        (record { session = s; tried_members = []; tries = 0 }) v

-- The states that a session manager reaches, whatever the cluster and Aeron answer.
pub data Reach : Session → Type 0 where
  constructed :
      (correlation_id : ℤ) (callback : Bool) → Reach (make_session correlation_id callback)
  handled : {s : Session} (result : ParseResult) → Reach s → Reach (handle_session_event result s)
  sent_raw :
      {s : Session} (c : Config) (link : Link) (message : Bytes)
      → Reach s
      → Reach (send_raw_message c link message s).0
  sent_combined :
      {s : Session} (c : Config) (up : Bool) (link : Link) (message : Bytes)
      → Reach s
      → Reach (send_combined_message c up link message s).0
  kept_alive : {s : Session} (link : Link) → Reach s → Reach (send_keepalive link s).0
  has_connected :
      {s : Session} (stoi : Bytes → Option ℤ) (c : Config) (env : ℕ → Try)
      (sleeps : ℕ → List ParseResult)
      → Reach s
      → Reach (connect stoi c env sleeps s).1.session
  has_disconnected :
      {s : Session} (c : Config) (up : Bool) (links : ℕ → Link)
      → Reach s
      → Reach (disconnect c up links s)

-- In every state that a session manager reaches by any sequence of session events, sends,
-- keep-alives, connects and disconnects, whatever Aeron answers, its two prepared buffers have the
-- layout of a keep-alive and of a session message header; while it is connected they carry its
-- leadership term and its session id, and the header's timestamp is 0.
pub Reach-IsSynced : (s : Session) → Reach s → IsSynced s
Reach-IsSynced _ (constructed correlation_id callback) =
    make_session-IsSynced correlation_id callback
Reach-IsSynced _ (handled {s} result r) =
    handle_session_event-IsSynced result s (Reach-IsSynced s r)
Reach-IsSynced _ (sent_raw {s} c link message r) =
    Quiet-IsSynced (send_raw_message-QuietSent c link message s).quiet (Reach-IsSynced s r)
Reach-IsSynced _ (sent_combined {s} c up link message r) =
    Quiet-IsSynced (send_combined_message-QuietSent c up link message s).quiet (Reach-IsSynced s r)
Reach-IsSynced _ (kept_alive {s} link r) =
    Quiet-IsSynced (send_keepalive-QuietSent link s).quiet (Reach-IsSynced s r)
Reach-IsSynced _ (has_connected {s} stoi c env sleeps r) =
    (connect-IsConnectResult stoi c env sleeps s (Reach-IsSynced s r)).synced
Reach-IsSynced _ (has_disconnected {s} c up links r) =
    Quiet-IsSynced (disconnect-Quiet c up links s) (Reach-IsSynced s r)

-- When `connect` reports success on a state that the session manager reaches, the session is
-- connected, and the result carries that session's id, leader and leadership term.
pub connect-connected :
    (stoi : Bytes → Option ℤ) (c : Config) (env : ℕ → Try) (sleeps : ℕ → List ParseResult)
    (s : Session)
    → Reach s
    → (connect stoi c env sleeps s).0.success ≡ true
    → ((connect stoi c env sleeps s).1.session.connected ≡ true)
      × ((connect stoi c env sleeps s).0 ≡ connected_result (connect stoi c env sleeps s).1.session)
connect-connected stoi c env sleeps s r =
    (connect-IsConnectResult stoi c env sleeps s (Reach-IsSynced s r)).up
