-- ===== src/Client/Link/Reconnecting.antt =====
-- The thread that `schedule_auto_reconnect` of ClusterClient::Impl starts.
use aeron_cluster_client_cpp.Prelude.{
  ℕ, zero, suc, ◌+◌, Bool, true, false, Option, none, some, if◌then◌else◌,
}
use aeron_cluster_client_cpp.Client.Link.{
  ClientLink, Reason, auto_reconnect_failed, call_error_callback, stop_polling,
}
use aeron_cluster_client_cpp.Client.Link.Connecting.{Attempt, client_connect}

-- PerformanceConfig::MAX_RECONNECT_ATTEMPTS
abbrev pub max_reconnect_attempts : ℕ
max_reconnect_attempts = 10

-- The end of the loop.
unfoldable pub give_up : Reason → ClientLink → ClientLink
give_up reason l =
    let l1 = record l { reconnect_in_progress = false } in
    if l.auto_reconnect_enabled then call_error_callback (auto_reconnect_failed reason) l1 else l1

-- What follows an attempt.
abbrev pub after_attempt :
    (ClientLink → Option ClientLink) → Option (Bool × ClientLink) → Option ClientLink
after_attempt next none = none
after_attempt next (some (true, l)) =
    some (record l { disconnect_notified = false; reconnect_in_progress = false })
after_attempt next (some (false, l)) = next (stop_polling l)

-- The rounds that are left, from attempt `i` on. Nothing else runs in between, so that the setting
-- is tested once in a round.
unfoldable pub reconnect_loop : (ℕ → Attempt) → ℕ → ℕ → Reason → ClientLink → Option ClientLink
unfolding client_connect stop_polling give_up
reconnect_loop attempts zero i reason l = some (give_up reason l)
reconnect_loop attempts (suc left) i reason l =
    let next = reconnect_loop attempts left (i + 1) reason in
    let l1 = record l { suppress_disconnect_notifications = false } in
    if l.auto_reconnect_enabled
    then after_attempt next (client_connect (attempts i) l1)
    else some (give_up reason l)

unfoldable pub auto_reconnect : (ℕ → Attempt) → Reason → ClientLink → Option ClientLink
unfolding reconnect_loop stop_polling
auto_reconnect attempts reason l =
    reconnect_loop attempts max_reconnect_attempts 1 reason (stop_polling l)
