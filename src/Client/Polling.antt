-- ===== src/Client/Polling.antt =====
-- polling_worker, the thread of ClusterClient::Impl (src/cluster_client.cpp), with
-- perform_connection_health_check. Times are nanoseconds of the steady clock. poll_messages, which
-- catches its exceptions, is an argument of each round; the warnings of a stall are output.
pub mod Grace
use aeron_cluster_client_cpp.Prelude.{
  ℕ, ◌-◌, ◌*◌, ◌/◌, List, [], ◌∷◌, Bool, true, false, not, ◌&&◌, ◌||◌, ltb, leb, if◌then◌else◌,
  Option, none, some,
}
use aeron_cluster_client_cpp.Prelude.Int.{ℤ, is_positive}
use aeron_cluster_client_cpp.Session.Send.{is_connected}
use aeron_cluster_client_cpp.Session.Publish.{positive_part}
use aeron_cluster_client_cpp.Client.Link.{
  Reason, disconnected, connected, same_state, no_active_images, health_check_failed,
  delivery_stall, notify_connection_loss,
}
use aeron_cluster_client_cpp.Client.State.{Client, client_is_connected}

-- What a round of the loop meets: the time, the answers of the ingress publication, of the egress
-- subscription (true where there is none), and whether there is a subscription with images, whether
-- there is an Aeron, and what poll_messages does and returns.
pub record Round : Type 0 where
  pub now : ℕ
  pub session_up : Bool
  pub egress_up : Bool
  pub has_images : Bool
  pub has_aeron : Bool
  pub poll_messages : Client → Client × ℕ

-- The variables of the loop.
pub record Watch : Type 0 where
  pub last_health_check : ℕ
  pub last_activity : ℕ
  pub connection_start_time : ℕ

abbrev second : ℕ
second = 1000000000

-- 10, 15 and 60 seconds
abbrev pub health_check_interval : ℕ
health_check_interval = 10000000000

abbrev pub connection_grace_period : ℕ
connection_grace_period = 15000000000

abbrev pub legacy_idle_timeout : ℕ
legacy_idle_timeout = 60000000000

unfoldable pub perform_connection_health_check : Round → Client → Bool
unfolding is_connected
perform_connection_health_check r c =
    r.has_aeron && is_connected r.session_up c.session && r.egress_up

abbrev pub lose : Reason → Client → Client
lose reason c = record c { link = notify_connection_loss reason true c.link }

-- `delivery_stall_disconnect_timeout` is in milliseconds.
unfoldable pub is_stalled : ℤ → ℕ → Bool
is_stalled disconnect_timeout idle_duration =
    let enabled = is_positive disconnect_timeout in
    (enabled && leb (positive_part disconnect_timeout * 1000000) idle_duration)
    || (not enabled && leb legacy_idle_timeout idle_duration)

-- The last part of a round, behind poll_messages. `none` ends the loop.
unfoldable pub after_poll : ℤ → Bool → Round → Watch → Client × ℕ → Client × Option Watch
unfolding is_stalled notify_connection_loss
after_poll disconnect_timeout in_grace r w (c, processed) =
    let idle_duration = r.now - w.last_activity in
    if ltb 0 processed
    then (c, some (record w { last_activity = r.now }))
    else if in_grace
    then (c, some w)
    else if is_stalled disconnect_timeout idle_duration
    then (lose (delivery_stall (idle_duration / 1000000)) c, none)
    else (c, some w)

-- The periodic check, and the poll.
unfoldable pub check_health : ℤ → Bool → Round → Watch → Client → Client × Option Watch
unfolding perform_connection_health_check after_poll notify_connection_loss
check_health disconnect_timeout in_grace r w c =
    let checked : Watch = record w { last_health_check = r.now } in
    let polled = after_poll disconnect_timeout in_grace r w (r.poll_messages c) in
    let polled_checked = after_poll disconnect_timeout in_grace r checked (r.poll_messages c) in
    if ltb (r.now - w.last_health_check) health_check_interval
    then polled
    else if perform_connection_health_check r c
    then polled_checked
    else if in_grace
    then polled_checked
    else (lose health_check_failed c, none)

-- One round of the loop.
unfoldable pub polling_round : ℤ → Round → Watch → Client → Client × Option Watch
unfolding is_connected client_is_connected check_health notify_connection_loss
polling_round disconnect_timeout r w c =
    let in_grace = ltb (r.now - w.connection_start_time) connection_grace_period in
    let fresh =
      same_state c.link.connection_state connected
      && in_grace
      && is_connected r.session_up c.session in
    let start = if fresh then r.now else w.connection_start_time in
    let rest =
      check_health disconnect_timeout in_grace r (record w { connection_start_time = start }) c in
    if in_grace
    then (if same_state c.link.connection_state disconnected then (c, none) else rest)
    else if not (client_is_connected r.session_up r.egress_up c) || not r.has_images
    then (lose no_active_images c, none)
    else rest

-- What follows a round.
abbrev pub go_on : Client × Option Watch → (Watch → Client → Client × Bool) → Client × Bool
go_on (c, none) next = (c, false)
go_on (c, some w) next = next w c

-- The answer is true where the rounds have ended and the loop goes on.
unfoldable pub polling_rounds : ℤ → List Round → Watch → Client → Client × Bool
unfolding polling_round
polling_rounds disconnect_timeout [] w c = (c, true)
polling_rounds disconnect_timeout (r ∷ rounds) w c =
    let next = λ (v : Watch) (d : Client). polling_rounds disconnect_timeout rounds v d in
    let round = go_on (polling_round disconnect_timeout r w c) next in
    if c.link.polling_active then round else (c, false)

unfoldable pub polling_worker : ℤ → ℕ → List Round → Client → Client × Bool
unfolding polling_rounds
polling_worker disconnect_timeout begin rounds c =
    polling_rounds disconnect_timeout rounds
      (record { last_health_check = begin; last_activity = begin; connection_start_time = begin }) c
